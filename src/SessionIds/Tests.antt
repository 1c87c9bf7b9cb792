-- ===== src/SessionIds/Tests.antt =====
-- A server whose key is 7 acquires, with a key 8 between.
use tamizdat.SessionIds.{Entropy, nonce_of, acquire, peek_stable_random, forget}
use tamizdat.SessionIds.Freshness.{acquire_all, acquire_never_repeats}
use tamizdat.SessionIds.Uniqueness.{AllFit, SixBytes, Renews}
use tamizdat.Prelude.{[], arith, some, ◌≡◌, ◌∷◌, none, ◌≢◌, refl}
use tamizdat.Prelude.Assoc.{lookup, insert, erase}

abbrev source : Entropy
source = record { stable_bytes = some 66051; jitter_bytes = some 5 }

abbrev other_source : Entropy
other_source = record { stable_bytes = some 66052; jitter_bytes = some 6 }

first_nonce : (acquire 100 source 7 []).1 ≡ some (nonce_of 66051 0)
unfolding acquire lookup insert erase
first_nonce = refl

second_nonce :
    (acquire 200 source 7 (acquire 100 source 7 []).0).1 ≡ some (0 ∷ 0 ∷ 0 ∷ 1 ∷ 2 ∷ 3 ∷ 0 ∷ 1 ∷ [])
unfolding acquire lookup insert erase
second_nonce = refl

no_entropy : (acquire 100 (record { stable_bytes = some 1; jitter_bytes = none }) 7 []) ≡ ([], none)
unfolding acquire lookup insert erase
no_entropy = refl

peek_expired : peek_stable_random 8000000000000 7 (acquire 100 source 7 []).0 ≡ none
unfolding acquire peek_stable_random lookup insert erase
peek_expired = refl

peek_forgotten : peek_stable_random 101 7 (forget 7 (acquire 100 source 7 []).0) ≡ none
unfolding acquire peek_stable_random forget lookup insert erase
peek_forgotten = refl

source-SixBytes : SixBytes source
source-SixBytes r h = ground arith

other_source-Renews : Renews 66051 other_source
other_source-Renews = (λ r h. ground arith, λ q. ground arith)

empty-AllFit : AllFit []
unfolding lookup
empty-AllFit k e h = absurd (ground arith)

acquire_never_repeats_example :
    (acquire 300 other_source 7 (
      acquire_all
        (record { now = 200; entropy = other_source; key = 8 } ∷ [])
        (acquire 100 source 7 []).0)).1
    ≢ some (nonce_of 66051 0)
acquire_never_repeats_example =
    acquire_never_repeats 100 300 source other_source 7 66051 0
      (record { now = 200; entropy = other_source; key = 8 } ∷ []) [] (omega arith) (omega arith)
      empty-AllFit source-SixBytes (other_source-Renews, tt) other_source-Renews first_nonce
