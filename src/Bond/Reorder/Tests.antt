-- ===== src/Bond/Reorder/Tests.antt =====
-- Runs of the reorder buffer, and its theorems at concrete frames.
use tamizdat.Bond.Reorder.{Reorder, fresh, push, flush_expired, drain, drain_contiguous, deliver}
use tamizdat.Bond.Reorder.Drain.{Inv, Promise}
use tamizdat.Bond.Reorder.Push.{push-Promise}
use tamizdat.Bond.Reorder.Flush.{flush_expired-ne-nil}
use tamizdat.Bond.Reorder.Order.{Event, arrives, ticks, run, Ascends, run-fresh-Ascends, fresh-Inv}
use tamizdat.Bond.Reorder.Window.{Lossless, push-Lossless}
use tamizdat.Prelude.{ℕ, List, arith, ◌∷◌, ◌≡◌, [], ◌≢◌, map, refl}
use tamizdat.Prelude.Assoc.{lookup, insert, erase}

-- Each payload is its own number.
abbrev itself : ℕ → ℕ
itself n = n

-- 2 comes before 1, 5 comes twice, and 3 and 4 never come.
abbrev shuffled : List (Event ℕ)
shuffled =
    arrives 10 2 2
    ∷ arrives 20 1 1
    ∷ arrives 30 5 5
    ∷ arrives 31 5 5
    ∷ ticks 40
    ∷ ticks 30000030
    ∷ arrives 30000031 3 3
    ∷ []

run-shuffled : run fresh shuffled ≡ 1 ∷ 2 ∷ 5 ∷ []
unfolding run fresh push flush_expired drain_contiguous deliver lookup insert erase drain
run-shuffled = refl

-- The buffer after frame 2 alone.
abbrev early : Reorder ℕ
early = (push 10 fresh 2 2).0

early-Inv : Inv itself early
early-Inv = (push-Promise itself 10 fresh 2 2 (fresh-Inv itself) (omega arith) refl).inv

push-Promise_example : Promise itself early (push 20 early 1 1)
push-Promise_example = push-Promise itself 20 early 1 1 early-Inv (omega arith) refl

flush_expired-ne-nil_example : (flush_expired 30000010 early).1 ≢ []
unfolding push fresh lookup insert
flush_expired-ne-nil_example =
    flush_expired-ne-nil itself 30000010 early early-Inv (omega arith) (omega arith) (omega arith)

run-fresh-Ascends_example : (ks : List ℕ) × (run fresh shuffled ≡ map itself ks) × Ascends 1 ks
run-fresh-Ascends_example = run-fresh-Ascends itself shuffled (omega arith)

push-Lossless_example : Lossless itself fresh 1 1 (push 20 fresh 1 1)
unfolding fresh
push-Lossless_example =
    push-Lossless itself 20 fresh 1 1 (fresh-Inv itself) (omega arith) refl (omega arith)
      (omega arith)
