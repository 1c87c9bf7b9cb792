-- ===== src/BondServer/Reorder/Lowest.antt =====
-- `lowest` finds the least number that the buffer holds, and a gap is skipped by a move to it.
use tamizdat.BondServer.Reorder.{PacketReorder, lowest, lowest_of}
use tamizdat.BondServer.Reorder.Held.{held, value_of, IsOrderly}
use tamizdat.Prelude.{
  ℕ, List, Option, none, some, ◌∷◌, [], get_or, ltb, arith, ◌≡◌, Bool-cases, inl, inr, ◌≤◌,
  if◌then◌else◌, suc, ◌⊎◌, ◌≢◌, Option-cases, ◌<◌, ◌==◌, ◌%◌, refl, zero, ◌||◌, false, ap, sym, ◌∙◌,
}

abbrev lower : ℕ → ℕ → ℕ
lower low seq = if low == 0 || ltb seq low then seq else low

module _ {A : Type 0} where
  abbrev pub IsPositive : List (Option (ℕ × A)) → Type 0
  IsPositive xs = (i seq : ℕ) (p : A) → get_or xs i none ≡ some (seq, p) → 1 ≤ seq

  tail-IsPositive :
      (x : Option (ℕ × A)) (xs : List (Option (ℕ × A))) → IsPositive (x ∷ xs) → IsPositive xs
  tail-IsPositive x xs h i seq p e = h (suc i) seq p e

  -- The number so far bounds the result.
  lowest_of-le :
      (low : ℕ) (xs : List (Option (ℕ × A)))
      → IsPositive xs
      → 1 ≤ low
      → (1 ≤ lowest_of low xs) × (lowest_of low xs ≤ low)
  unfolding lowest_of
  lowest_of-le low [] h pos = (pos, omega arith)
  lowest_of-le low (none ∷ xs) h pos = lowest_of-le low xs (tail-IsPositive none xs h) pos
  lowest_of-le low (some (seq, p) ∷ xs) h pos =
      let first = h 0 seq p refl in
      let step : (1 ≤ lower low seq) × (lower low seq ≤ low) = ground arith in
      let rest = lowest_of-le (lower low seq) xs (tail-IsPositive (some (seq, p)) xs h) step.0 in
      (rest.0, omega (arith, rest.1, step.1))

  -- The result is at most the number of each packet.
  pub lowest_of-le-slot :
      (low : ℕ) (xs : List (Option (ℕ × A))) (i seq : ℕ) (p : A)
      → IsPositive xs
      → get_or xs i none ≡ some (seq, p)
      → (1 ≤ lowest_of low xs) × (lowest_of low xs ≤ seq)
  unfolding lowest_of
  lowest_of-le-slot low [] i seq p h e = absurd (cc)
  lowest_of-le-slot low (none ∷ xs) zero seq p h e = absurd (cc)
  lowest_of-le-slot low (none ∷ xs) (suc i) seq p h e =
      lowest_of-le-slot low xs i seq p (tail-IsPositive none xs h) e
  lowest_of-le-slot low (some (k, q) ∷ xs) zero seq p h e =
      let first = h 0 k q refl in
      let same : k ≡ seq = ground arith in
      let step : (1 ≤ lower low k) × (lower low k ≤ k) = ground arith in
      let rest = lowest_of-le (lower low k) xs (tail-IsPositive (some (k, q)) xs h) step.0 in
      (rest.0, omega (arith, rest.1, step.1, same))
  lowest_of-le-slot low (some (k, q) ∷ xs) (suc i) seq p h e =
      lowest_of-le-slot (lower low k) xs i seq p (tail-IsPositive (some (k, q)) xs h) e

  -- A slot that holds the number found.
  abbrev Found : ℕ → List (Option (ℕ × A)) → Type 0
  Found k xs = (i : ℕ) × (p : A) × (get_or xs i none ≡ some (k, p))

  -- The result is the number so far, or that of a packet.
  pub lowest_of-Found :
      (low : ℕ) (xs : List (Option (ℕ × A)))
      → (lowest_of low xs ≡ low) ⊎ Found (lowest_of low xs) xs
  unfolding lowest_of
  lowest_of-Found low [] = inl refl
  lowest_of-Found low (none ∷ xs) = elim (lowest_of-Found low xs) [
    | inl e ↦ inl e
    | inr (i, p, e) ↦ inr (suc i, p, e)
  ]
  lowest_of-Found low (some (k, q) ∷ xs) = elim (lowest_of-Found (lower low k) xs) [
    | inr (i, p, e) ↦ inr (suc i, p, e)
    | inl e ↦ elim (Bool-cases (low == 0 || ltb k low)) [
      | inl fresh ↦ inr (0, q, ap (λ (n : ℕ). some (n, q)) (sym (e ∙ rw fresh refl)))
      | inr old ↦ inl (e ∙ rw old refl)
    ]
  ]

  pub IsOrderly-IsPositive : (r : PacketReorder A) → IsOrderly r → IsPositive r.slots
  IsOrderly-IsPositive r v i seq p e = omega (arith, (v.filled i seq p e).1, v.started)

  pub lowest-le :
      (r : PacketReorder A) (i seq : ℕ) (p : A)
      → IsOrderly r
      → get_or r.slots i none ≡ some (seq, p)
      → lowest r ≤ seq
  unfolding lowest
  lowest-le r i seq p v e = (lowest_of-le-slot 0 r.slots i seq p (IsOrderly-IsPositive r v) e).1

  -- With no lowest number the buffer is empty.
  pub lowest-eq-zero :
      (r : PacketReorder A) (i seq : ℕ) (p : A)
      → IsOrderly r
      → lowest r ≡ 0
      → get_or r.slots i none ≢ some (seq, p)
  unfolding lowest
  lowest-eq-zero r i seq p v z e =
      omega (arith, (lowest_of-le-slot 0 r.slots i seq p (IsOrderly-IsPositive r v) e).0)

  pub held_empty : (r : PacketReorder A) (k : ℕ) → IsOrderly r → lowest r ≡ 0 → held r k ≡ none
  unfolding held
  held_empty r k v z = elim (Option-cases (get_or r.slots (k % 256) none)) [
    | inl e ↦ rw (e, value_of) refl
    | inr ((seq, p), e) ↦ absurd (lowest-eq-zero r (k % 256) seq p v z e)
  ]

  -- What is below the lowest number is not held.
  pub held_below_lowest :
      (r : PacketReorder A) (k : ℕ) → IsOrderly r → k < lowest r → held r k ≡ none
  unfolding held lowest value_of
  held_below_lowest r k v h = elim (Option-cases (get_or r.slots (k % 256) none)) [
    | inl e ↦ rw (e, value_of) refl
    | inr ((seq, p), e) ↦
        let low = (lowest_of-le-slot 0 r.slots (k % 256) seq p (IsOrderly-IsPositive r v) e).1 in
        let other : (seq == k) ≡ false = ground (arith, low) in rw (e, value_of) (rw other refl)
  ]

  -- The lowest number stands in its slot.
  pub lowest_slot :
      (r : PacketReorder A)
      → IsOrderly r
      → lowest r ≢ 0
      → (p : A) × (get_or r.slots (lowest r % 256) none ≡ some (lowest r, p))
  unfolding lowest
  lowest_slot r v there = elim (lowest_of-Found 0 r.slots) [
    | inl e ↦ absurd (there e)
    | inr (i, p, e) ↦
        let (at, lo, hi, fit) = v.filled i (lowest_of 0 r.slots) p e in
        (p, ap (λ (j : ℕ). get_or r.slots j none) at ∙ e)
  ]
