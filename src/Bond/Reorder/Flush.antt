-- ===== src/Bond/Reorder/Flush.antt =====
-- `flushExpired`: the search for the lowest buffered number, and what a flush promises.
use tamizdat.Bond.Reorder.{
  lowest_from, flush_to, flush_expired, settle, Reorder, reorder_hold, u64_mod,
}
use tamizdat.Bond.Reorder.Drain.{Inv, Draining, Promise, quiet, contiguous-Drained, settle-Inv}
use tamizdat.Prelude.Assoc.{Assoc, lookup, Distinct, erase, erase-Distinct, lookup-erase}
use tamizdat.Prelude.{
  ℕ, ◌≡◌, ◌<◌, if◌then◌else◌, some, ◌≤◌, ◌==◌, none, arith, ◌⊎◌, ◌||◌, ◌∷◌, inl, ◌+◌, ltb, [],
  length, refl, inr, ◌∙◌, ◌≢◌, ◌%◌, ◌-◌, Bool-cases, suc,
}

abbrev lower : ℕ → ℕ → ℕ
lower low k = if low == 0 || ltb k low then k else low

lower_cases : (low k : ℕ) → (lower low k ≡ low) ⊎ (lower low k ≡ k)
lower_cases low k = ground arith

module _ {A : Type 0} where
  abbrev Positive : Assoc A → Type 0
  Positive [] = Unit {0}
  Positive ((k, _) ∷ m) = (0 < k) × Positive m

  abbrev Found : ℕ → Assoc A → Type 0
  Found k m = (v : A) × (lookup k m ≡ some v)

  -- `r` is the lowest key of `m`, with `low` for one more key unless it is 0.
  record Lowest (low : ℕ) (m : Assoc A) (r : ℕ) : Type 0 where
    at_most : 0 < low → r ≤ low
    is_key : (r ≡ low) ⊎ Found r m
    positive : 0 < low + length m → 0 < r
    minimal : (k : ℕ) (v : A) → lookup k m ≡ some v → r ≤ k

  Lowest-cons :
      (low k r : ℕ) (w : A) (m : Assoc A)
      → 0 < k
      → lookup k m ≡ none
      → Lowest (lower low k) m r
      → Lowest low ((k, w) ∷ m) r
  unfolding lookup
  Lowest-cons low k r w m pos new l = record {
    at_most = λ h. ground (arith, l.at_most (ground arith));
    is_key = elim l.is_key [
      | inr (v, f) ↦ inr (v, ground arith)
      | inl e ↦ elim (lower_cases low k) [ inl q ↦ inl (e ∙ q) | inr q ↦ inr (w, ground arith) ]
    ];
    positive = λ h. ground (arith, l.positive (ground arith));
    minimal = λ j v f. ground (arith, l.at_most (ground arith), l.minimal j v);
  }

  lowest_from-Lowest :
      (low : ℕ) (m : Assoc A) → Positive m → Distinct m → Lowest low m (lowest_from low m)
  unfolding lowest_from lookup
  lowest_from-Lowest low [] p d = record {
    at_most = λ h. omega arith;
    is_key = inl refl;
    positive = λ h. omega arith;
    minimal = λ k v f. absurd (cc);
  }
  lowest_from-Lowest low ((k, w) ∷ m) p d =
      Lowest-cons low k _ w m p.0 d.0 (lowest_from-Lowest (lower low k) m p.1 d.1)

  Positive-entries :
      (m : Assoc A) → Distinct m → ((k : ℕ) (v : A) → lookup k m ≡ some v → 0 < k) → Positive m
  unfolding lookup
  Positive-entries [] d h = tt
  Positive-entries ((k, w) ∷ m) d h =
      (h k w (ground arith), Positive-entries m d.1 (λ j v f. h j v (ground arith)))

  -- The lowest number of a buffer that is not empty stands in it.
  record Earliest (P : ℕ → A) (r : Reorder A) : Type 0 where
    value : A
    stored : lookup (lowest_from 0 r.buf) r.buf ≡ some value
    first_of_all : (k : ℕ) (v : A) → lookup k r.buf ≡ some v → lowest_from 0 r.buf ≤ k

  earliest : (P : ℕ → A) (r : Reorder A) → Inv P r → length r.buf ≢ 0 → Earliest P r
  earliest P r v h =
      let pos =
        Positive-entries r.buf v.base.distinct
          (λ k w f. omega (arith, v.base.entries k w f, v.base.started)) in
      let l = lowest_from-Lowest 0 r.buf pos v.base.distinct in
      elim l.is_key [
        | inl z ↦ absurd (omega (arith, l.positive (omega arith)))
        | inr (w, f) ↦ record { value = w; stored = f; first_of_all = l.minimal }
      ]

  -- Entries behind the lowest one are ready to drain when it is taken out.
  skip-Draining :
      (P : ℕ → A) (r : Reorder A) (gaps low : ℕ) (w : A)
      → Inv P r
      → lookup low r.buf ≡ some w
      → ((k : ℕ) (v : A) → lookup k r.buf ≡ some v → low ≤ k)
      → Draining P (record r { gaps = gaps; buf = erase low r.buf; expect = (low + 1) % u64_mod })
  skip-Draining P r gaps low w v f min = record {
    distinct = erase-Distinct low r.buf v.base.distinct;
    started = omega (arith, v.base.entries low w f);
    fits = omega (arith, v.base.entries low w f);
    entries = λ k u g. ground (
      arith,
      lookup-erase low k r.buf v.base.distinct,
      v.base.entries k u,
      v.base.entries low w f,
      min k u,
    );
  }

  flush_to-Promise :
      (P : ℕ → A) (now : ℕ) (r : Reorder A) (low : ℕ) (w : A)
      → Inv P r
      → lookup low r.buf ≡ some w
      → ((k : ℕ) (v : A) → lookup k r.buf ≡ some v → low ≤ k)
      → Promise P r (flush_to now low r) × ((flush_to now low r).1 ≢ [])
  unfolding flush_to
  flush_to-Promise P now r low w v f min =
      let gaps : ℕ = if ltb r.expect low then r.gaps + (low - r.expect) else r.gaps in
      let s = record r { gaps = gaps; buf = erase low r.buf; expect = (low + 1) % u64_mod } in
      let d = contiguous-Drained P s (skip-Draining P r gaps low w v f min) in
      let en = v.base.entries low w f in
      rw (f, flush_to)
        (
          record {
            delivers = record {
              start = low;
              count = suc d.count;
              handed = ground (arith, d.handed, en);
              not_before = en.0;
              up_to = unfold settle in omega (arith, d.up_to, en);
            };
            inv = settle-Inv P _ _ d.inv;
          },
          λ e. cc,
        )

  -- A flush keeps every promise of `push`.
  pub flush_expired-Promise :
      (P : ℕ → A) (now : ℕ) (r : Reorder A) → Inv P r → Promise P r (flush_expired now r)
  unfolding flush_expired
  flush_expired-Promise P now r v =
      elim (Bool-cases (length r.buf == 0 || r.first == 0 || ltb (now - r.first) reorder_hold)) [
        | inl skip ↦ rw skip (quiet P r r refl v)
        | inr due ↦
            let e = earliest P r v (ground arith) in
            rw due (flush_to-Promise P now r _ e.value v e.stored e.first_of_all).0
      ]

  -- Once the oldest gap has waited for the hold time, a flush hands at least one payload on.
  pub flush_expired-ne-nil :
      (P : ℕ → A) (now : ℕ) (r : Reorder A)
      → Inv P r
      → length r.buf ≢ 0
      → r.first ≢ 0
      → r.first + reorder_hold ≤ now
      → (flush_expired now r).1 ≢ []
  unfolding flush_expired
  flush_expired-ne-nil P now r v some_held running over =
      elim (Bool-cases (length r.buf == 0 || r.first == 0 || ltb (now - r.first) reorder_hold)) [
        | inl skip ↦ absurd (ground arith)
        | inr due ↦
            let e = earliest P r v some_held in
            rw due (flush_to-Promise P now r _ e.value v e.stored e.first_of_all).1
      ]
