-- ===== src/Replay/Eviction.antt =====
-- `evictOverCapLocked`: how far it goes, and whom it deletes.
use tamizdat.Replay.Heap.{Entry, In, SortedFrom, SortedFrom-mono}
use tamizdat.Replay.{evict_one, evict}
use tamizdat.Prelude.Assoc.{Assoc, Distinct, lookup, erase-Distinct, length-erase, lookup-erase}
use tamizdat.Prelude.{
  ℕ, List, length, [], arith, ◌∷◌, ◌≤◌, ◌≡◌, some, inl, suc, Option-cases, Bool-cases, min, none,
  refl, ◌⊎◌, inr, leb, ◌≢◌, leb→le, ◌∙◌, leb-false, le→leb,
}
use native.Mathlib.Decide.{ℕ_discrete}

-- Every key of the map has an entry in the heap under its latest time.
abbrev pub Covered : Assoc ℕ → List Entry → Type 0
Covered seen heap = (key t : ℕ) → lookup key seen ≡ some t → In t key heap

evict_one-Distinct : (e : Entry) (seen : Assoc ℕ) → Distinct seen → Distinct (evict_one e seen)
unfolding evict_one
evict_one-Distinct (t, key) seen d = ground (arith, erase-Distinct key seen d)

-- One round takes out the entry's own key under the entry's own time, or nothing.
lookup-evict_one :
    (t key j : ℕ) (seen : Assoc ℕ)
    → Distinct seen
    → ((lookup key seen ≡ some t) × (key ≡ j) × (lookup j (evict_one (t, key) seen) ≡ none))
      ⊎ (((lookup key seen ≢ some t) ⊎ (key ≢ j))
          × (lookup j (evict_one (t, key) seen) ≡ lookup j seen))
unfolding evict_one
lookup-evict_one t key j seen d = elim (Option-cases (lookup key seen)) [
  | inl e ↦ inr (inl (λ q. cc), ground arith)
  | inr (u, e) ↦ elim (ℕ_discrete u t) [
    | no ne ↦ inr (inl (λ q. ground arith), ground arith)
    | yes same ↦ elim (ℕ_discrete key j) [
      | yes k ↦ inl (ground arith, k, ground (arith, lookup-erase key j seen d))
      | no k ↦ inr (inr k, ground (arith, lookup-erase key j seen d))
    ]
  ]
]

evict_one-Covered :
    (t key : ℕ) (seen : Assoc ℕ) (heap : List Entry)
    → Distinct seen
    → Covered seen ((t, key) ∷ heap)
    → Covered (evict_one (t, key) seen) heap
evict_one-Covered t key seen heap d c j u e = elim (lookup-evict_one t key j seen d) [
  | inl (_, _, gone) ↦ absurd (cc)
  | inr (other, same) ↦ ground (arith, c j u)
]

length-evict_one : (e : Entry) (seen : Assoc ℕ) → length seen ≤ suc (length (evict_one e seen))
unfolding evict_one
length-evict_one (t, key) seen = elim (Option-cases (lookup key seen)) [
  | inl e ↦ ground arith
  | inr (u, e) ↦ ground (arith, length-erase key u seen e)
]

evict_one-le : (e : Entry) (seen : Assoc ℕ) → length (evict_one e seen) ≤ length seen
unfolding evict_one
evict_one-le (t, key) seen = elim (Option-cases (lookup key seen)) [
  | inl e ↦ ground arith
  | inr (u, e) ↦ ground (arith, length-erase key u seen e)
]

pub evict-Distinct :
    (cap : ℕ) (seen : Assoc ℕ) (heap : List Entry)
    → Distinct seen
    → Distinct (evict cap seen heap).0
unfolding evict
evict-Distinct cap seen [] d = d
evict-Distinct cap seen (e ∷ heap) d =
    ground (arith, evict-Distinct cap (evict_one e seen) heap (evict_one-Distinct e seen d))

pub evict-Covered :
    (cap : ℕ) (seen : Assoc ℕ) (heap : List Entry)
    → Distinct seen
    → Covered seen heap
    → Covered (evict cap seen heap).0 (evict cap seen heap).1
unfolding evict
evict-Covered cap seen [] d c = c
evict-Covered cap seen ((t, key) ∷ heap) d c = elim (Bool-cases (leb (length seen) cap)) [
  | inl fits ↦ rw fits c
  | inr over ↦ rw over (
      evict-Covered cap (evict_one (t, key) seen) heap (evict_one-Distinct (t, key) seen d)
        (evict_one-Covered t key seen heap d c))
]

empty_of_uncovered : (seen : Assoc ℕ) → Covered seen [] → length seen ≡ 0
empty_of_uncovered [] c = refl
empty_of_uncovered ((key, t) ∷ seen) c = absurd (c key t (unfold lookup in ground arith))

-- The eviction goes as far as the cap, and no further.
pub length-evict :
    (cap : ℕ) (seen : Assoc ℕ) (heap : List Entry)
    → Distinct seen
    → Covered seen heap
    → length (evict cap seen heap).0 ≡ min (length seen) cap
unfolding evict
length-evict cap seen [] d c = omega (arith, empty_of_uncovered seen c)
length-evict cap seen ((t, key) ∷ heap) d c = elim (Bool-cases (leb (length seen) cap)) [
  | inl fits ↦ rw fits (omega (arith, leb→le _ _ fits))
  | inr over ↦ rw over (
      omega (
        arith,
        leb-false _ _ over,
        length-evict_one (t, key) seen,
        evict_one-le (t, key) seen,
        length-evict cap (evict_one (t, key) seen) heap (evict_one-Distinct (t, key) seen d)
            (evict_one-Covered t key seen heap d c),
      ))
]

pub evict-SortedFrom :
    (lo cap : ℕ) (seen : Assoc ℕ) (heap : List Entry)
    → SortedFrom lo heap
    → SortedFrom lo (evict cap seen heap).1
unfolding evict
evict-SortedFrom lo cap seen [] s = tt
evict-SortedFrom lo cap seen ((t, key) ∷ heap) s = ground (
  arith,
  evict-SortedFrom lo cap (evict_one (t, key) seen) heap (SortedFrom-mono lo t heap s.0 s.1),
)

evict-none :
    (cap key : ℕ) (seen : Assoc ℕ) (heap : List Entry)
    → Distinct seen
    → lookup key seen ≡ none
    → lookup key (evict cap seen heap).0 ≡ none
unfolding evict
evict-none cap key seen [] d e = e
evict-none cap key seen ((t, other) ∷ heap) d e = ground (
  arith,
  lookup-evict_one t other key seen d,
  evict-none cap key (evict_one (t, other) seen) heap (evict_one-Distinct (t, other) seen d),
)

-- A key is kept with its time, or it goes and no entry left in the heap is earlier.
abbrev pub Spared : ℕ → ℕ → Assoc ℕ × List Entry → Type 0
Spared key t result =
    (lookup key result.0 ≡ some t) ⊎ ((lookup key result.0 ≡ none) × SortedFrom t result.1)

-- The eviction deletes the oldest keys first.
pub evict-Spared :
    (lo cap key t : ℕ) (seen : Assoc ℕ) (heap : List Entry)
    → Distinct seen
    → SortedFrom lo heap
    → lookup key seen ≡ some t
    → Spared key t (evict cap seen heap)
unfolding evict
evict-Spared lo cap key t seen [] d s e = inl e
evict-Spared lo cap key t seen ((u, other) ∷ heap) d s e =
    elim (Bool-cases (leb (length seen) cap)) [
      | inl fits ↦ rw fits (inl e)
      | inr over ↦ rw over (elim (lookup-evict_one u other key seen d) [
        | inr (_, same) ↦
            evict-Spared u cap key t (evict_one (u, other) seen) heap
              (evict_one-Distinct (u, other) seen d) s.1 (same ∙ e)
        | inl (f, k, gone) ↦ inr (
          evict-none cap key _ heap (evict_one-Distinct (u, other) seen d) gone,
          evict-SortedFrom t cap _ heap (SortedFrom-mono t u heap (ground arith) s.1),
        )
      ])
    ]

-- Within the cap nothing is evicted.
pub evict_fits :
    (cap : ℕ) (seen : Assoc ℕ) (heap : List Entry)
    → length seen ≤ cap
    → evict cap seen heap ≡ (seen, heap)
unfolding evict
evict_fits cap seen [] h = refl
evict_fits cap seen (e ∷ heap) h = rw (le→leb _ _ h)
