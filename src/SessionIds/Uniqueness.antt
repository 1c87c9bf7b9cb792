-- ===== src/SessionIds/Uniqueness.antt =====
-- No nonce is handed out twice under one stable random, and none outlives its entry.
use tamizdat.SessionIds.{
  CacheEntry, Entropy, ttl_min, ttl_max, u16_mod, random_ttl, nonce_of, need_reseed, reseed,
  choose_entry, acquire,
}
use tamizdat.Prelude.{
  ◌<◌, ℕ, Option, ◌^◌, ◌≡◌, some, ◌≤◌, arith, none, sym, ◌≢◌, Bool-cases, ◌+◌, ◌-◌, inl, ◌%◌,
  Option-cases, ◌∙◌, inr, ◌⊎◌, ap, refl, take, drop,
}
use tamizdat.Prelude.Assoc.{Assoc, lookup, insert, lookup-insert}
use tamizdat.Prelude.Bytes.{from_be-be_bytes, Bytes, from_be}
use native.Mathlib.Decide.{ℕ_discrete}
use mathlib.Core.Path.{subst}

-- An entry's fields fit the bytes that they are written to.
pub record Fits (e : CacheEntry) : Type 0 where
  pub stable_fits : e.stable_random < 2 ^ 48
  pub counter_fits : e.counter < u16_mod

-- The entropy is 6 bytes.
abbrev pub SixBytes : Entropy → Type 0
SixBytes entropy = (r : ℕ) → entropy.stable_bytes ≡ some r → r < 2 ^ 48

random_ttl_range :
    (o : Option ℕ) (ttl : ℕ) → random_ttl o ≡ some ttl → (ttl_min ≤ ttl) × (ttl < ttl_max)
unfolding random_ttl
random_ttl_range none ttl e = absurd (cc)
random_ttl_range (some j) ttl e = ground arith

-- The nonce tells the stable random and the counter apart.
pub nonce_of-injective :
    (s c t d : ℕ)
    → s < 2 ^ 48
    → c < 2 ^ 16
    → t < 2 ^ 48
    → d < 2 ^ 16
    → nonce_of s c ≡ nonce_of t d
    → (s ≡ t) × (c ≡ d)
nonce_of-injective s c t d hs hc ht hd e =
    unfold nonce_of in
    (
      sym (from_be-be_bytes 6 s hs)
          ∙ ap (λ (b : Bytes). from_be (take 6 b)) e
          ∙ from_be-be_bytes 6 t ht,
      sym (from_be-be_bytes 2 c hc)
          ∙ ap (λ (b : Bytes). from_be (drop 6 b)) e
          ∙ from_be-be_bytes 2 d hd,
    )

-- What `Acquire` goes on with: an entry of the cache that is in date and not used up, or a new one.
pub data Chosen (now : ℕ) (entropy : Entropy) (before : Option CacheEntry) (e : CacheEntry)
    : Type 0 where
  cached :
      before ≡ some e → now ≤ e.expires_at → e.counter ≢ u16_mod - 1 → Chosen now entropy before e
  seeded :
      entropy.stable_bytes ≡ some e.stable_random
      → e.counter ≡ 0
      → now + ttl_min ≤ e.expires_at
      → e.expires_at < now + ttl_max
      → Chosen now entropy before e

reseed-Chosen :
    (now : ℕ) (entropy : Entropy) (before : Option CacheEntry) (e : CacheEntry)
    (stable ttl : Option ℕ)
    → entropy.stable_bytes ≡ stable
    → random_ttl entropy.jitter_bytes ≡ ttl
    → reseed now entropy ≡ some e
    → Chosen now entropy before e
unfolding reseed
reseed-Chosen now entropy before e none ttl q r h = absurd (ground arith)
reseed-Chosen now entropy before e (some stable) none q r h = absurd (ground arith)
reseed-Chosen now entropy before e (some stable) (some ttl) q r h =
    seeded (ground arith) (ground arith) (ground (arith, random_ttl_range entropy.jitter_bytes ttl))
      (ground (arith, random_ttl_range entropy.jitter_bytes ttl))

choose_entry-Chosen :
    (now : ℕ) (entropy : Entropy) (before : Option CacheEntry) (e : CacheEntry)
    → choose_entry now entropy before ≡ some e
    → Chosen now entropy before e
unfolding choose_entry
choose_entry-Chosen now entropy none e h = reseed-Chosen now entropy none e _ _ refl refl h
choose_entry-Chosen now entropy (some old) e h = elim (Bool-cases (need_reseed now (some old))) [
  | inl again ↦ reseed-Chosen now entropy (some old) e _ _ refl refl (rw again at h)
  | inr reuse ↦
      unfold need_reseed in
      let same : old ≡ e = ground arith in
      cached (ap some same) (ground (arith, same)) (ground (arith, same))
]

-- Every entry of the cache fits its bytes.
abbrev pub AllFit : Assoc CacheEntry → Type 0
AllFit cache = (key : ℕ) (e : CacheEntry) → lookup key cache ≡ some e → Fits e

pub Chosen-Fits :
    (now : ℕ) (entropy : Entropy) (key : ℕ) (cache : Assoc CacheEntry) (e : CacheEntry)
    → AllFit cache
    → SixBytes entropy
    → Chosen now entropy (lookup key cache) e
    → Fits e
Chosen-Fits now entropy key cache e fit six (cached h _ _) = fit key e h
Chosen-Fits now entropy key cache e fit six (seeded r z _ _) = record {
  stable_fits = six e.stable_random r;
  counter_fits = omega arith;
}

abbrev pub advanced : CacheEntry → CacheEntry
advanced e = record e { counter = (e.counter + 1) % u16_mod }

-- What a call of `Acquire` does: it fails and leaves the cache, or hands out the nonce of the chosen
-- entry and leaves the entry with the next counter.
pub data Acquired (now : ℕ) (entropy : Entropy) (key : ℕ) (cache : Assoc CacheEntry) : Type 0 where
  failed : acquire now entropy key cache ≡ (cache, none) → Acquired now entropy key cache
  granted :
      (e : CacheEntry)
      → Chosen now entropy (lookup key cache) e
      → acquire now entropy key cache
        ≡ (insert key (advanced e) cache, some (nonce_of e.stable_random e.counter))
      → Acquired now entropy key cache

pub acquire-Acquired :
    (now : ℕ) (entropy : Entropy) (key : ℕ) (cache : Assoc CacheEntry)
    → Acquired now entropy key cache
acquire-Acquired now entropy key cache =
    elim (Option-cases (choose_entry now entropy (lookup key cache))) [
      | inl h ↦ failed (unfold acquire in rw (h, acquire))
      | inr (e, h) ↦
          granted e (choose_entry-Chosen now entropy (lookup key cache) e h)
            (unfold acquire in rw (h, acquire))
    ]

-- The nonce of `stable` and `counter` lies behind: the key's entry is of another stable random, or
-- past that counter.
abbrev pub Behind : ℕ → ℕ → ℕ → Assoc CacheEntry → Type 0
Behind key stable counter cache =
    (e : CacheEntry)
    → lookup key cache ≡ some e
    → (e.stable_random ≢ stable) ⊎ (counter < e.counter)

-- The entropy source gives 6 bytes, and not those of the earlier nonce.
abbrev pub Renews : ℕ → Entropy → Type 0
Renews stable entropy = SixBytes entropy × (entropy.stable_bytes ≢ some stable)

pub Chosen-Behind :
    (key stable counter now : ℕ) (entropy : Entropy) (cache : Assoc CacheEntry) (e : CacheEntry)
    → Behind key stable counter cache
    → Renews stable entropy
    → Chosen now entropy (lookup key cache) e
    → (e.stable_random ≢ stable) ⊎ (counter < e.counter)
Chosen-Behind key stable counter now entropy cache e b r (cached h _ _) = b e h
Chosen-Behind key stable counter now entropy cache e b r (seeded h _ _ _) =
    inl (λ q. r.1 (ground arith))

pub advanced-Fits :
    (key now : ℕ) (entropy : Entropy) (cache : Assoc CacheEntry) (e : CacheEntry)
    → AllFit cache
    → SixBytes entropy
    → Chosen now entropy (lookup key cache) e
    → Fits (advanced e) × ((advanced e).counter ≡ e.counter + 1)
advanced-Fits key now entropy cache e fit six (cached h _ ne) =
    let f = fit key e h in
    (
      record { stable_fits = f.stable_fits; counter_fits = omega arith },
      omega (arith, f.counter_fits),
    )
advanced-Fits key now entropy cache e fit six (seeded r z _ _) =
    (record { stable_fits = six e.stable_random r; counter_fits = omega arith }, omega arith)

-- A call keeps the entries within their bytes, and what lies behind stays behind.
pub acquire-AllFit :
    (now : ℕ) (entropy : Entropy) (key : ℕ) (cache : Assoc CacheEntry)
    → AllFit cache
    → SixBytes entropy
    → AllFit (acquire now entropy key cache).0
acquire-AllFit now entropy key cache fit six = elim (acquire-Acquired now entropy key cache) [
  | failed s ↦ rw s fit
  | granted e c s ↦ rw s λ k u h.
      let f = (advanced-Fits key now entropy cache e fit six c).0 in
      elim (ℕ_discrete key k) [
        | yes same ↦
            let q : advanced e ≡ u = ground (arith, lookup-insert key k (advanced e) cache) in
            subst Fits q f
        | no other ↦ fit k u (ground (arith, lookup-insert key k (advanced e) cache))
      ]
]

pub acquire-Behind :
    (now : ℕ) (entropy : Entropy) (asked key stable counter : ℕ) (cache : Assoc CacheEntry)
    → AllFit cache
    → Renews stable entropy
    → Behind key stable counter cache
    → Behind key stable counter (acquire now entropy asked cache).0
acquire-Behind now entropy asked key stable counter cache fit r b =
    elim (acquire-Acquired now entropy asked cache) [
      | failed s ↦ rw s b
      | granted e c s ↦ rw s λ u h. elim (ℕ_discrete asked key) [
        | no other ↦ b u (ground (arith, lookup-insert asked key (advanced e) cache))
        | yes same ↦
            let q : advanced e ≡ u = ground (arith, lookup-insert asked key (advanced e) cache) in
            let n = (advanced-Fits asked now entropy cache e fit r.0 c).1 in
            subst (λ (w : CacheEntry). (w.stable_random ≢ stable) ⊎ (counter < w.counter)) q
              (elim (Chosen-Behind asked stable counter now entropy cache e (rw (← same) at b) r
                c) [ inl ne ↦ inl ne | inr lt ↦ inr (omega (arith, n)) ])
      ]
    ]
