-- ===== src/Masquerade/Tests.antt =====
-- Runs of the rate limit, and its theorems at concrete windows.
use tamizdat.Masquerade.{decide, probes_of, record_probe, reap_expired}
use tamizdat.Masquerade.Verdicts.{decide-reap_expired}
use tamizdat.Prelude.{ℕ, List, ◌≡◌, none, ◌∷◌, arith, [], refl}
use tamizdat.Prelude.Assoc.{Assoc, lookup}

abbrev never : ℕ → ℕ → ℕ
never num den = 0

abbrev probes : List ℕ
probes = 1000 ∷ 2000 ∷ 70000000000 ∷ []

abbrev buckets : Assoc (List ℕ)
buckets = (4, probes) ∷ []

third_probe : record_probe 70000000001 probes ≡ 70000000000 ∷ 70000000001 ∷ []
unfolding record_probe
third_probe = refl

decide-reap_expired_example :
    let after = decide never 500000000000 none 4 (reap_expired 400000000000 buckets) in
    let before = decide never 500000000000 none 4 buckets in
    (after.1 ≡ before.1) × (probes_of 4 after.0 ≡ probes_of 4 before.0)
unfolding lookup
decide-reap_expired_example =
    decide-reap_expired never 0 400000000000 500000000000 none 4 buckets (refl, tt) (omega arith)
      (omega arith)
