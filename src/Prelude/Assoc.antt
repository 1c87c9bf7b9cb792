-- ===== src/Prelude/Assoc.antt =====
-- A Go map with numbers for keys, as an association list whose keys are distinct.
use Prim.Native.Nat.{ℕ, suc, ◌+◌, ◌≤◌}
use mathlib.Core.Path.{◌≡◌, refl}
use mathlib.Core.Bool.{Bool}
use mathlib.Core.List.{List, [], ◌∷◌}
use mathlib.Core.Option.{Option, none, some}
use native.Mathlib.Omega.{arith}
use tamizdat.Prelude.Lists.{length}
use tamizdat.Prelude.Tests.{◌==◌, if◌then◌else◌}
use tamizdat.Prelude.{◌<◌, Option-cases, inl, inr, zero, ◌≢◌}

abbrev pub Assoc {ℓ} : Type ℓ → Type ℓ
Assoc V = List (ℕ × V)

module _ {ℓ} {V : Type ℓ} where
  -- `m[k]`, with `none` for a missing key.
  unfoldable pub lookup : ℕ → Assoc V → Option V
  lookup key [] = none
  lookup key ((other, value) ∷ more) = if other == key then some value else lookup key more

  -- `m[k] = v`.
  unfoldable pub insert : ℕ → V → Assoc V → Assoc V
  insert key new [] = (key, new) ∷ []
  insert key new ((other, value) ∷ more) =
      if other == key then (key, new) ∷ more else (other, value) ∷ insert key new more

  -- `delete(m, k)`.
  unfoldable pub erase : ℕ → Assoc V → Assoc V
  erase k [] = []
  erase k ((j, w) ∷ m) = if j == k then m else (j, w) ∷ erase k m

  -- A `range` loop that deletes every entry whose value fails the test.
  unfoldable pub retain : (V → Bool) → Assoc V → Assoc V
  retain p [] = []
  retain p ((j, w) ∷ m) = let rest = retain p m in if p w then (j, w) ∷ rest else rest

  -- No key stands twice.
  abbrev pub Distinct : Assoc V → Type ℓ
  Distinct [] = Unit {ℓ}
  Distinct ((j, w) ∷ m) = (lookup j m ≡ none) × Distinct m

  pub lookup-insert :
      (key asked : ℕ) (new : V) (entries : Assoc V)
      → lookup asked (insert key new entries)
        ≡ (if key == asked then some new else lookup asked entries)
  unfolding lookup insert
  lookup-insert key asked new [] = refl
  lookup-insert key asked new ((other, value) ∷ more) =
      ground (arith, lookup-insert key asked new more)

  pub lookup-insert_self : (k : ℕ) (v : V) (m : Assoc V) → lookup k (insert k v m) ≡ some v
  lookup-insert_self k v m = ground (arith, lookup-insert k k v m)

  pub lookup-insert_ne :
      (k j : ℕ) (v : V) (m : Assoc V) → k ≢ j → lookup j (insert k v m) ≡ lookup j m
  lookup-insert_ne k j v m ne = ground (arith, lookup-insert k j v m)

  pub insert-Distinct : (k : ℕ) (v : V) (m : Assoc V) → Distinct m → Distinct (insert k v m)
  unfolding lookup insert
  insert-Distinct k v [] d = (refl, tt)
  insert-Distinct k v ((i, w) ∷ m) d =
      ground (arith, insert-Distinct k v m d.1, lookup-insert k i v m)

  pub lookup-erase :
      (k j : ℕ) (m : Assoc V)
      → Distinct m
      → lookup j (erase k m) ≡ (if k == j then none else lookup j m)
  unfolding lookup erase
  lookup-erase k j [] d = ground arith
  lookup-erase k j ((i, w) ∷ m) d = ground (arith, lookup-erase k j m d.1)

  pub erase-Distinct : (k : ℕ) (m : Assoc V) → Distinct m → Distinct (erase k m)
  unfolding lookup erase
  erase-Distinct k [] d = tt
  erase-Distinct k ((i, w) ∷ m) d = ground (arith, erase-Distinct k m d.1, lookup-erase k i m d.1)

  pub length-erase :
      (k : ℕ) (v : V) (m : Assoc V) → lookup k m ≡ some v → suc (length (erase k m)) ≡ length m
  unfolding lookup erase
  length-erase k v [] h = ground arith
  length-erase k v ((i, w) ∷ m) h = ground (arith, length-erase k v m)

  pub length-insert_le : (k : ℕ) (v : V) (m : Assoc V) → length (insert k v m) ≤ length m + 1
  unfolding insert
  length-insert_le k v [] = omega arith
  length-insert_le k v ((i, w) ∷ m) = ground (arith, length-insert_le k v m)

  pub length-insert_old :
      (k : ℕ) (v w : V) (m : Assoc V) → lookup k m ≡ some w → length (insert k v m) ≡ length m
  unfolding lookup insert
  length-insert_old k v w [] h = ground arith
  length-insert_old k v w ((i, u) ∷ m) h = ground (arith, length-insert_old k v w m)

  pub length-insert_new :
      (k : ℕ) (v : V) (m : Assoc V) → lookup k m ≡ none → length (insert k v m) ≡ suc (length m)
  unfolding lookup insert
  length-insert_new k v [] h = refl
  length-insert_new k v ((i, u) ∷ m) h = ground (arith, length-insert_new k v m)

  -- What `retain` leaves of one entry.
  abbrev pub kept : (V → Bool) → Option V → Option V
  kept p none = none
  kept p (some v) = if p v then some v else none

  pub lookup-retain :
      (p : V → Bool) (k : ℕ) (m : Assoc V)
      → Distinct m
      → lookup k (retain p m) ≡ kept p (lookup k m)
  unfolding lookup retain
  lookup-retain p k [] d = refl
  lookup-retain p k ((i, w) ∷ m) d = ground (arith, lookup-retain p k m d.1)

  pub retain-Distinct : (p : V → Bool) (m : Assoc V) → Distinct m → Distinct (retain p m)
  unfolding retain lookup
  retain-Distinct p [] d = tt
  retain-Distinct p ((i, w) ∷ m) d =
      ground (arith, retain-Distinct p m d.1, lookup-retain p i m d.1)

  pub length-retain_le : (p : V → Bool) (m : Assoc V) → length (retain p m) ≤ length m
  unfolding retain
  length-retain_le p [] = omega arith
  length-retain_le p ((i, w) ∷ m) = ground (arith, length-retain_le p m)

  -- The keys of a map hold nothing twice, and none of them is missing from it.
  pub keys_present : (k : ℕ) (v : V) (m : Assoc V) → length m ≡ 0 → lookup k m ≡ some v → ⊥
  unfolding lookup
  keys_present k v [] e h = ground arith
  keys_present k v (x ∷ m) e h = absurd (omega arith)

  -- Distinct keys in a range of `n` numbers are `n` at most.
  abbrev pub InRange : ℕ → ℕ → Assoc V → Type ℓ
  InRange lo n m = (k : ℕ) (v : V) → lookup k m ≡ some v → (lo ≤ k) × (k < lo + n)

  InRange-none :
      (lo n : ℕ) (m : Assoc V) → InRange lo (suc n) m → lookup (lo + n) m ≡ none → InRange lo n m
  InRange-none lo n m h e k v f = ground (arith, h k v f)

  InRange-erase :
      (lo n : ℕ) (m : Assoc V) → Distinct m → InRange lo (suc n) m → InRange lo n (erase (lo + n) m)
  InRange-erase lo n m d h k v f = ground (arith, lookup-erase (lo + n) k m d, h k v)

  pub length-le_range : (lo n : ℕ) (m : Assoc V) → Distinct m → InRange lo n m → length m ≤ n
  unfolding lookup
  length-le_range lo zero [] d h = omega arith
  length-le_range lo zero ((i, w) ∷ m) d h = absurd (omega (arith, h i w (ground arith)))
  length-le_range lo (suc n) m d h = elim (Option-cases (lookup (lo + n) m)) [
    | inl e ↦ omega (arith, length-le_range lo n m d (InRange-none lo n m h e))
    | inr (u, e) ↦ omega (
      arith,
      length-erase (lo + n) u m e,
      length-le_range lo n (erase (lo + n) m) (erase-Distinct (lo + n) m d)
          (InRange-erase lo n m d h),
    )
  ]
