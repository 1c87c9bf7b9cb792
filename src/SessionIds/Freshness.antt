-- ===== src/SessionIds/Freshness.antt =====
-- A nonce that was handed out is not handed out again, whatever calls lie between.
use tamizdat.SessionIds.{CacheEntry, Entropy, nonce_of, acquire}
use tamizdat.SessionIds.Uniqueness.{
  advanced, SixBytes, AllFit, Behind, Renews, nonce_of-injective, Chosen-Fits, Chosen-Behind,
  advanced-Fits, acquire-Acquired, acquire-AllFit, acquire-Behind, failed, granted, cached, seeded,
}
use tamizdat.Prelude.{ℕ, List, All, ◌∷◌, ◌<◌, ◌^◌, ◌≡◌, [], some, ◌≢◌, arith, ◌≤◌, inr, inl}
use tamizdat.Prelude.Assoc.{Assoc, lookup, lookup-insert}
use tamizdat.Prelude.Bytes.{Bytes}

-- A call of `Acquire`.
pub record Call : Type 0 where
  pub now : ℕ
  pub entropy : Entropy
  pub key : ℕ

-- The cache after calls in their order.
pub acquire_all : List Call → Assoc CacheEntry → Assoc CacheEntry
unfolding acquire
acquire_all [] cache = cache
acquire_all (c ∷ calls) cache = acquire_all calls (acquire c.now c.entropy c.key cache).0

-- Every call of the list finds an entropy source that renews `stable`.
abbrev pub AllRenew : ℕ → List Call → Type 0
AllRenew stable calls = All (λ (c : Call). Renews stable c.entropy) calls

granted-Behind :
    (now : ℕ) (entropy : Entropy) (key stable counter : ℕ) (cache : Assoc CacheEntry)
    → stable < 2 ^ 48
    → counter < 2 ^ 16
    → AllFit cache
    → SixBytes entropy
    → (acquire now entropy key cache).1 ≡ some (nonce_of stable counter)
    → Behind key stable counter (acquire now entropy key cache).0
granted-Behind now entropy key stable counter cache hs hc fit six got =
    elim (acquire-Acquired now entropy key cache) [
      | failed s ↦ absurd (ground arith)
      | granted e c s ↦
          let f = Chosen-Fits now entropy key cache e fit six c in
          let q : nonce_of e.stable_random e.counter ≡ nonce_of stable counter = ground arith in
          let same =
            nonce_of-injective e.stable_random e.counter stable counter f.stable_fits f.counter_fits
              hs hc q in
          let n = (advanced-Fits key now entropy cache e fit six c).1 in
          rw s λ u h. inr (ground (arith, n, same, lookup-insert key key (advanced e) cache))
    ]

Behind-refused :
    (now : ℕ) (entropy : Entropy) (key stable counter : ℕ) (cache : Assoc CacheEntry)
    → stable < 2 ^ 48
    → counter < 2 ^ 16
    → AllFit cache
    → Renews stable entropy
    → Behind key stable counter cache
    → (acquire now entropy key cache).1 ≢ some (nonce_of stable counter)
Behind-refused now entropy key stable counter cache hs hc fit r b got =
    elim (acquire-Acquired now entropy key cache) [
      | failed s ↦ ground arith
      | granted e c s ↦
          let f = Chosen-Fits now entropy key cache e fit r.0 c in
          let q : nonce_of e.stable_random e.counter ≡ nonce_of stable counter = ground arith in
          let same =
            nonce_of-injective e.stable_random e.counter stable counter f.stable_fits f.counter_fits
              hs hc q in
          elim (Chosen-Behind key stable counter now entropy cache e b r c) [
            | inl ne ↦ ne same.0
            | inr lt ↦ omega (arith, same)
          ]
    ]

acquire_all-Behind :
    (calls : List Call) (key stable counter : ℕ) (cache : Assoc CacheEntry)
    → AllRenew stable calls
    → AllFit cache
    → Behind key stable counter cache
    → AllFit (acquire_all calls cache) × Behind key stable counter (acquire_all calls cache)
unfolding acquire_all
acquire_all-Behind [] key stable counter cache rs fit b = (fit, b)
acquire_all-Behind (c ∷ calls) key stable counter cache (r, rs) fit b =
    acquire_all-Behind calls key stable counter _ rs
      (acquire-AllFit c.now c.entropy c.key cache fit r.0)
      (acquire-Behind c.now c.entropy c.key key stable counter cache fit r b)

-- Once `Acquire` has handed out a nonce for a key, no later call hands it out for that key again, after
-- any calls for any keys, while the entries fit their bytes and no later read of the entropy source gives
-- the stable part of that nonce again.
pub acquire_never_repeats :
    (now later : ℕ) (entropy fresh_entropy : Entropy) (key stable counter : ℕ) (calls : List Call)
    (cache : Assoc CacheEntry)
    → stable < 2 ^ 48
    → counter < 2 ^ 16
    → AllFit cache
    → SixBytes entropy
    → AllRenew stable calls
    → Renews stable fresh_entropy
    → (acquire now entropy key cache).1 ≡ some (nonce_of stable counter)
    → (acquire later fresh_entropy key (acquire_all calls (acquire now entropy key cache).0)).1
      ≢ some (nonce_of stable counter)
acquire_never_repeats now later entropy fresh_entropy key stable counter calls cache hs hc fit six
      rs r got =
    let b = granted-Behind now entropy key stable counter cache hs hc fit six got in
    let kept =
      acquire_all-Behind calls key stable counter _ rs
        (acquire-AllFit now entropy key cache fit six) b in
    Behind-refused later fresh_entropy key stable counter _ hs hc kept.0 r kept.1

-- When `Acquire` hands out a nonce, the key has an entry in the cache that has not expired.
pub acquire-in_date :
    (now : ℕ) (entropy : Entropy) (key : ℕ) (cache : Assoc CacheEntry) (nonce : Bytes)
    → (acquire now entropy key cache).1 ≡ some nonce
    → (e : CacheEntry) × (lookup key (acquire now entropy key cache).0 ≡ some e)
      × (now ≤ e.expires_at)
acquire-in_date now entropy key cache nonce got = elim (acquire-Acquired now entropy key cache) [
  | failed s ↦ absurd (ground arith)
  | granted e c s ↦ (
    advanced e,
    rw s (ground (arith, lookup-insert key key (advanced e) cache)),
    elim c [ cached _ h _ ↦ h | seeded _ _ h _ ↦ omega arith ],
  )
]
