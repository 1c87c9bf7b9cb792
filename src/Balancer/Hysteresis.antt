-- ===== src/Balancer/Hysteresis.antt =====
-- The band between the thresholds of a high round-trip time.
use tamizdat.Prelude.{true, false, ℕ, ◌<◌, Bool, arith, ◌≡◌, ◌↔◌, ◌⊎◌, inr, some, inl, none, refl}
use tamizdat.Balancer.{recovery_threshold, note_metric}

pub recovery_threshold_lt :
    (threshold : ℕ) → 0 < threshold → recovery_threshold threshold < threshold
unfolding recovery_threshold
recovery_threshold_lt threshold h = ground arith

marked_iff :
    (threshold rtt : ℕ) (flag : Bool)
    → 0 < threshold
    → ((note_metric threshold rtt flag).0 ≡ true)
      ↔ ((threshold < rtt) ⊎ ((flag ≡ true) × (recovery_threshold threshold < rtt)))
unfolding note_metric
marked_iff threshold rtt true h = (
  λ e. inr (refl, ground arith),
  λ c. elim c [
    | inl lt ↦ ground (arith, recovery_threshold_lt threshold h)
    | inr (e, lt) ↦ ground arith
  ],
)
marked_iff threshold rtt false h =
    (λ e. inl (ground arith), λ c. elim c [ inl lt ↦ ground arith | inr (e, lt) ↦ absurd (cc) ])

-- With a threshold, a member is marked after a measurement exactly when it is above the threshold, or was
-- marked and is above the recovery threshold, which is the lower one; the measurement is then given to the order.
pub note_metric_band :
    (threshold rtt : ℕ) (flag : Bool)
    → 0 < threshold
    → (recovery_threshold threshold < threshold)
      × (((note_metric threshold rtt flag).0 ≡ true)
          ↔ ((threshold < rtt) ⊎ ((flag ≡ true) × (recovery_threshold threshold < rtt))))
      × (((note_metric threshold rtt flag).0 ≡ true)
          → (note_metric threshold rtt flag).1 ≡ some rtt)
      × (((note_metric threshold rtt flag).0 ≡ false) → (note_metric threshold rtt flag).1 ≡ none)
unfolding note_metric
note_metric_band threshold rtt flag h =
    (recovery_threshold_lt threshold h, marked_iff threshold rtt flag h, given flag, held flag)
  where
    given :
        (f : Bool)
        → (note_metric threshold rtt f).0 ≡ true
        → (note_metric threshold rtt f).1 ≡ some rtt
    given true e = ground arith
    given false e = ground arith

    held :
        (f : Bool)
        → (note_metric threshold rtt f).0 ≡ false
        → (note_metric threshold rtt f).1 ≡ none
    held true e = ground arith
    held false e = ground arith
