-- ===== src/Replay/Tests.antt =====
-- Runs of the replay guard, and its theorems at concrete guards.
use tamizdat.Replay.{Guard, new_guard, check_key}
use tamizdat.Replay.Heap.{Entry}
use tamizdat.Replay.Eviction.{Covered}
use tamizdat.Replay.Invariant.{Inv, new_guard-Inv, check_key-Inv, check_key-refuses}
use tamizdat.Replay.History.{run_checks, replay_refused}
use tamizdat.Prelude.Assoc.{lookup, Assoc, retain, Distinct}
use tamizdat.Prelude.{◌≡◌, ◌∷◌, List, false, [], ℕ, arith, true, ◌↔◌, refl, some, ◌-◌, ◌≤◌}

-- A window of 100 ns; key 7 is checked at time 50.
abbrev guard : Guard
guard = new_guard 100

abbrev marked_guard : Guard
marked_guard = (check_key 50 guard 7).0

marked_guard-Inv : Inv marked_guard
marked_guard-Inv = check_key-Inv 50 guard 7 (new_guard-Inv 100)

first_check : (check_key 50 guard 7).1 ≡ true
unfolding new_guard check_key lookup retain
first_check = refl

check_key-Inv_example : Inv (check_key 60 marked_guard 8).0
check_key-Inv_example = check_key-Inv 60 marked_guard 8 marked_guard-Inv

check_key-refuses_example :
    ((check_key 60 marked_guard 7).1 ≡ false)
    ↔ ((t : ℕ) × (lookup 7 marked_guard.seen ≡ some t) × (60 - t ≤ marked_guard.window))
check_key-refuses_example = check_key-refuses 60 marked_guard 7 marked_guard-Inv

replay_refused_example :
    (check_key 150 (run_checks marked_guard ((60, 8) ∷ (70, 7) ∷ [])) 7).1 ≡ false
unfolding new_guard
replay_refused_example =
    replay_refused 50 guard 7 ((60, 8) ∷ (70, 7) ∷ []) 150 (new_guard-Inv 100) first_check
      (omega arith) (omega arith) (omega arith)

abbrev three_seen : Assoc ℕ
three_seen = (1, 10) ∷ (2, 20) ∷ (3, 30) ∷ []

abbrev three_entries : List Entry
three_entries = (10, 1) ∷ (20, 2) ∷ (30, 3) ∷ []

three_Distinct : Distinct three_seen
unfolding lookup
three_Distinct = (refl, (refl, (refl, tt)))

three_Covered : Covered three_seen three_entries
unfolding lookup
three_Covered key t e = ground arith
