-- ===== src/BondServer/Reorder/Tests.antt =====
-- The reorder buffer of the server on small runs.
use tamizdat.BondServer.Reorder.{new_packet_reorder, push, flush_expired, bond_reorder_hold}
use tamizdat.BondServer.Reorder.Push.{Pushed, push-Pushed}
use tamizdat.BondServer.Reorder.Flush.{Flushed, flush_expired-Flushed}
use tamizdat.BondServer.Reorder.Run.{Event, frame, tick, run, Accounts}
use tamizdat.BondServer.Reorder.Account.{run-Accounts}
use tamizdat.Prelude.{ℕ, List, ◌∷◌, [], arith, ◌≡◌, refl}

-- Two behind a gap, the second far behind; then the first comes twice, and the hold is over.
abbrev arrivals : List (Event ℕ)
arrivals = tick 90000000 ∷ frame 9 2 12 ∷ frame 8 1 11 ∷ frame 7 4 14 ∷ frame 5 2 12 ∷ []

-- What stands behind the frames 4 and 2 alone.
abbrev gap : List (Event ℕ)
gap = frame 7 4 14 ∷ frame 5 2 12 ∷ []

gap_closed : (run bond_reorder_hold arrivals).1 ≡ 11 ∷ 12 ∷ 14 ∷ []
unfolding run push new_packet_reorder flush_expired
gap_closed = refl

-- A number far ahead takes what is held with it.
pressed : (run bond_reorder_hold (frame 9 300 15 ∷ gap)).1 ≡ 12 ∷ 14 ∷ 15 ∷ []
unfolding run push new_packet_reorder
pressed = refl

run-Accounts_example : Accounts bond_reorder_hold arrivals (run bond_reorder_hold arrivals)
run-Accounts_example = run-Accounts bond_reorder_hold arrivals (omega arith)

push-Pushed_example :
    Pushed 300 15 (run bond_reorder_hold gap).0 (push 9 300 15 (run bond_reorder_hold gap).0)
push-Pushed_example =
    push-Pushed 9 300 15 (run bond_reorder_hold gap).0
      (run-Accounts bond_reorder_hold gap (omega arith)).orderly
      (run-Accounts bond_reorder_hold gap (omega arith)).waiting (omega arith)

flush_expired-Flushed_example :
    Flushed 90000000
      (run bond_reorder_hold gap).0
      (flush_expired 90000000 (run bond_reorder_hold gap).0)
flush_expired-Flushed_example =
    flush_expired-Flushed 90000000 (run bond_reorder_hold gap).0
      (run-Accounts bond_reorder_hold gap (omega arith)).orderly
      (run-Accounts bond_reorder_hold gap (omega arith)).waiting
