-- ===== src/Masquerade/Verdicts.antt =====
-- What a source meets: the decision by the number of its probes, and what the reaper may not change.
use tamizdat.Masquerade.{
  drop_after_jitter, decision, decide, probes_of, record_probe, evict_expired, bound_probes,
  reap_expired, is_live, window_duration, bucket_ttl, max_probes, bucket,
}
use tamizdat.Masquerade.Window.{OrderedFrom, evict_dead}
use tamizdat.Prelude.{
  ℕ, List, Option, ◌≡◌, ◌∷◌, length, none, ◌≤◌, ◌↔◌, if◌then◌else◌, arith, min, ◌-◌, [], some, ◌⊎◌,
  ltb, Bool-cases, ◌+◌, refl, ◌<◌, leb, length-append, inl, leb→le, length-drop, inr, leb-false, ap,
  ◌++◌, sym, ◌≢◌, ◌∙◌,
}
use tamizdat.Prelude.Assoc.{
  kept, Assoc, Distinct, lookup-retain, lookup, lookup-insert_self, lookup-insert_ne,
}

-- A probe is dropped exactly when it is the tenth or later in its window, or the sixth to ninth and a
-- random number was drawn that is below its threshold.
pub decision_bands :
    (threshold : ℕ → ℕ → ℕ) (random : Option ℕ) (count : ℕ)
    → (decision threshold random count ≡ drop_after_jitter)
      ↔ ((10 ≤ count) ⊎ ((r : ℕ) × (5 < count) × (random ≡ some r) × (r < threshold (count - 5) 5)))
unfolding decision
decision_bands threshold none count = ((λ e. inl (ground arith)), λ h. ground arith)
decision_bands threshold (some r) count = (sound, λ h. ground arith)
  where
    sound :
        decision threshold (some r) count ≡ drop_after_jitter
        → (10 ≤ count) ⊎ ((q : ℕ) × (5 < count) × (some r ≡ some q) × (q < threshold (count - 5) 5))
    sound e = elim (Bool-cases (leb 10 count)) [
      | inl many ↦ inl (leb→le _ _ many)
      | inr few ↦ inr (r, ground arith, refl, ground arith)
    ]

-- The probes of a list that are not before the cutoff.
abbrev pub live_count : ℕ → List ℕ → ℕ
live_count cutoff [] = 0
live_count cutoff (t ∷ probes) = (if ltb t cutoff then 0 else 1) + live_count cutoff probes

evict_expired-length :
    (lo cutoff : ℕ) (probes : List ℕ)
    → OrderedFrom lo probes
    → length (evict_expired cutoff probes) ≡ live_count cutoff probes
unfolding evict_expired
evict_expired-length lo cutoff [] s = refl
evict_expired-length lo cutoff (t ∷ probes) s =
    ground (arith, evict_expired-length t cutoff probes s.1, all_live t cutoff probes s.1)
  where
    all_live :
        (v w : ℕ) (more : List ℕ) → OrderedFrom v more → w ≤ v → live_count w more ≡ length more
    all_live v w [] o h = refl
    all_live v w (u ∷ more) o h = ground (arith, all_live u w more o.1)

bound_probes-count :
    (probes : List ℕ) → length (bound_probes probes) ≡ min (length probes) (max_probes - 1)
unfolding bound_probes
bound_probes-count probes = elim (Bool-cases (leb max_probes (length probes))) [
  | inl e ↦ rw e (omega (arith, length-drop (length probes - max_probes + 1) probes, leb→le _ _ e))
  | inr e ↦ rw e (omega (arith, leb-false _ _ e))
]

-- The count that the decision goes by is exact: the probes of the source inside the window, this one
-- included, up to the capacity.
pub record_probe-count :
    (lo now : ℕ) (probes : List ℕ)
    → OrderedFrom lo probes
    → length (record_probe now probes)
      ≡ min (live_count (now - window_duration) probes + 1) max_probes
unfolding record_probe
record_probe-count lo now probes s =
    let cutoff = now - window_duration in
    omega (
      arith,
      length-append (bound_probes (evict_expired cutoff probes)) (now ∷ []),
      bound_probes-count (evict_expired cutoff probes),
      evict_expired-length lo cutoff probes s,
    )

kept_same :
    (lo at now : ℕ) (o : Option (List ℕ))
    → at ≤ now
    → OrderedFrom lo (bucket o)
    → record_probe now (bucket (kept (is_live (at - bucket_ttl)) o)) ≡ record_probe now (bucket o)
kept_same lo at now none h s = refl
kept_same lo at now (some probes) h s = elim (Bool-cases (is_live (at - bucket_ttl) probes)) [
  | inl live ↦ rw live
  | inr dead ↦ rw dead (
      unfold record_probe evict_expired in
      ap (λ (l : List ℕ). bound_probes l ++ (now ∷ []))
        (sym (evict_dead lo (at - bucket_ttl) (now - window_duration) probes s (omega arith) dead)))
]

reap_expired-same :
    (lo at now ip : ℕ) (buckets : Assoc (List ℕ))
    → Distinct buckets
    → OrderedFrom lo (probes_of ip buckets)
    → at ≤ now
    → record_probe now (probes_of ip (reap_expired at buckets))
      ≡ record_probe now (probes_of ip buckets)
unfolding reap_expired
reap_expired-same lo at now ip buckets d s h =
    ap (λ (o : Option (List ℕ)). record_probe now (bucket o))
      (lookup-retain (is_live (at - bucket_ttl)) ip buckets d)
    ∙ kept_same lo at now (lookup ip buckets) h s

-- Reaping idle buckets is not seen by any later probe: the decision is the same, and so is the
-- window that is recorded.
pub decide-reap_expired :
    (threshold : ℕ → ℕ → ℕ) (lo at now : ℕ) (random : Option ℕ) (ip : ℕ) (buckets : Assoc (List ℕ))
    → Distinct buckets
    → OrderedFrom lo (probes_of ip buckets)
    → at ≤ now
    → let after = decide threshold now random ip (reap_expired at buckets) in
      let before = decide threshold now random ip buckets in
      (after.1 ≡ before.1) × (probes_of ip after.0 ≡ probes_of ip before.0)
unfolding decide
decide-reap_expired threshold lo at now random ip buckets d s h =
    let same = reap_expired-same lo at now ip buckets d s h in
    let put = λ (b : Assoc (List ℕ)).
      ap bucket (lookup-insert_self ip (record_probe now (probes_of ip b)) b) in
    (
      ap (λ (l : List ℕ). decision threshold random (length l)) same,
      put (reap_expired at buckets) ∙ same ∙ sym (put buckets),
    )

-- A probe of one source leaves the windows of the others alone.
pub decide-others :
    (threshold : ℕ → ℕ → ℕ) (now : ℕ) (random : Option ℕ) (ip other : ℕ) (buckets : Assoc (List ℕ))
    → ip ≢ other
    → probes_of other (decide threshold now random ip buckets).0 ≡ probes_of other buckets
unfolding decide
decide-others threshold now random ip other buckets ne =
    ap bucket (lookup-insert_ne ip other (record_probe now (probes_of ip buckets)) buckets ne)
