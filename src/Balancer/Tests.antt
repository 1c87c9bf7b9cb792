-- ===== src/Balancer/Tests.antt =====
-- Three members, of which the second has failed and the third is slow.
use tamizdat.Prelude.{
  true, false, ◌*◌, ◌∷◌, ℕ, ◌-◌, ◌≡◌, ◌==◌, ◌<◌, [], Option, some, none, ◌↔◌, refl,
}
use tamizdat.Balancer.{Snapshot, Member, Balancer, recovery_threshold, ordered, dial}
use tamizdat.Balancer.Order.{indices, ordered-perm}
use tamizdat.Balancer.Dial.{dial-none_iff}
use mathlib.Core.List.{Perm}

abbrev fine : Member
fine = record { cooldown = 0; high_rtt = false }

abbrev three : Balancer
three = record {
  is_alive_mode = true;
  members = fine ∷ record fine { cooldown = 900 } ∷ fine ∷ [];
  next = 4;
  failover_on_high_rtt = true;
  rtt_threshold = 100;
}

abbrev slow_third : ℕ → Option Snapshot
slow_third i = some (record { p50_ms = some (i * 60); last_ms = none })

alive_order : (ordered 500 (λ i. slow_third (2 - i)) three).1 ≡ 2 ∷ 0 ∷ 1 ∷ []
unfolding ordered
alive_order = refl

robin_order : (ordered 500 slow_third (record three { is_alive_mode = false })).1 ≡ 1 ∷ 2 ∷ 0 ∷ []
unfolding ordered
robin_order = refl

fails_over : (dial 500 slow_third (λ i. i == 1) (λ i. 600) (λ i. false) three).1 ≡ some 1
unfolding dial
fails_over = refl

recovers_below : recovery_threshold 100 ≡ 90
unfolding recovery_threshold
recovers_below = refl

ordered-perm_example : Perm (ordered 500 slow_third three).1 (indices 0 3)
ordered-perm_example = ordered-perm 500 slow_third three

dial-none_iff_example :
    ((dial 500 slow_third (λ i. i == 1) (λ i. 600) (λ i. false) three).1 ≡ none)
    ↔ ((j : ℕ) → j < 3 → (j == 1) ≡ false)
dial-none_iff_example =
    dial-none_iff 500 slow_third (λ i. i == 1) (λ i. 600) (λ i. false) three (λ j. refl)
