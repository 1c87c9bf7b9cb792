-- ===== src/Handshakes/Tests.antt =====
-- Calls for the server 5, and one for the server 6, with a limit of 2 in 100 ns.
use tamizdat.Handshakes.{new_limiter, reserve}
use tamizdat.Handshakes.Memory.{reserve_all}
use tamizdat.Handshakes.Rate.{within, granted, InOrder, granted-new_limiter-within}
use tamizdat.Prelude.{List, arith, ◌≤◌, ℕ, ◌∷◌, [], ◌≡◌, refl}
use tamizdat.Prelude.Assoc.{lookup, insert}

abbrev calls : List (ℕ × ℕ)
calls = (10, 5) ∷ (20, 5) ∷ (30, 6) ∷ (40, 5) ∷ (110, 5) ∷ []

third_waits : (reserve 40 5 (reserve_all ((10, 5) ∷ (20, 5) ∷ []) (new_limiter 2 100))).1 ≡ 70
unfolding reserve reserve_all new_limiter lookup insert
third_waits = refl

granted_times : granted 5 calls (new_limiter 2 100) ≡ 10 ∷ 20 ∷ 110 ∷ []
unfolding granted new_limiter lookup insert
granted_times = refl

calls-InOrder : InOrder 0 calls
calls-InOrder = omega arith

granted-new_limiter-within_example :
    within 110 (new_limiter 2 100).window (granted 5 calls (new_limiter 2 100))
    ≤ (new_limiter 2 100).limit
granted-new_limiter-within_example = granted-new_limiter-within 2 100 5 calls 110 calls-InOrder
