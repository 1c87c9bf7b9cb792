-- ===== src/BondServer/Reorder/Held.antt =====
-- The buffer as the packets that it holds by their numbers, and what it means to hand a run of them on.
use tamizdat.BondServer.Reorder.{PacketReorder, bond_reorder_window}
use tamizdat.Prelude.{
  ℕ, List, Option, none, some, ◌∷◌, [], ◌++◌, length, get_or, set, ◌==◌, if◌then◌else◌, ◌%◌, ◌^◌,
  ◌+◌, suc, zero, false, arith, ◌≡◌, ◌≤◌, ◌<◌, refl, sym, ap, ◌∙◌, Option-cases, inl, inr, true,
}

module _ {A : Type 0} where
  -- The packet of a slot, where it has the number asked for.
  unfoldable pub value_of : ℕ → Option (ℕ × A) → Option A
  value_of k none = none
  value_of k (some (seq, p)) = if seq == k then some p else none

  unfoldable pub held : PacketReorder A → ℕ → Option A
  unfolding value_of
  held r k = value_of k (get_or r.slots (k % bond_reorder_window) none)

  -- How many slots hold a packet.
  unfoldable pub count : List (Option (ℕ × A)) → ℕ
  count [] = 0
  count (none ∷ more) = count more
  count (some x ∷ more) = suc (count more)

  -- Each packet stands in the slot of its number, and its number is in the window; the packets are counted.
  pub record IsOrderly (r : PacketReorder A) : Type 0 where
    pub size : length r.slots ≡ bond_reorder_window
    pub started : 1 ≤ r.next
    pub fits : r.next < 2 ^ 64
    pub filled :
        (i seq : ℕ) (p : A)
        → get_or r.slots i none ≡ some (seq, p)
        → (seq % bond_reorder_window ≡ i)
          × (r.next ≤ seq)
          × (seq < r.next + bond_reorder_window)
          × (seq + 1 < 2 ^ 64)
    pub counted : r.buffered ≡ count r.slots

  -- The number that is expected next is not there.
  abbrev pub IsWaiting : PacketReorder A → Type 0
  IsWaiting r = get_or r.slots (r.next % bond_reorder_window) none ≡ none

  abbrev pub cons_some : Option A → List A → List A
  cons_some none xs = xs
  cons_some (some p) xs = p ∷ xs

  -- The packets among `n` numbers from `lo` on, in the order of their numbers.
  unfoldable pub collect : (ℕ → Option A) → ℕ → ℕ → List A
  collect h lo zero = []
  collect h lo (suc n) = cons_some (h lo) (collect h (suc lo) n)

  -- The expected number has moved on from `lo`: of the packets `h` all on the way are handed on, in their order, and
  -- the others are held.
  pub record Hands (h : ℕ → Option A) (lo : ℕ) (result : PacketReorder A × List A) : Type 0 where
    pub numbers : ℕ
    pub moved : result.0.next ≡ lo + numbers
    pub handed : result.1 ≡ collect h lo numbers
    pub kept : (k : ℕ) → result.0.next ≤ k → held result.0 k ≡ h k

  abbrev pub Releases : PacketReorder A → PacketReorder A × List A → Type 0
  Releases r result = Hands (held r) r.next result

  pub collect_same :
      (f g : ℕ → Option A) (lo n : ℕ)
      → ((k : ℕ) → lo ≤ k → k < lo + n → f k ≡ g k)
      → collect f lo n ≡ collect g lo n
  unfolding collect
  collect_same f g lo zero h = refl
  collect_same f g lo (suc n) h =
      let rest = collect_same f g (suc lo) n (λ k a b. h k (omega arith) (omega arith)) in
      ap (λ (o : Option A). cons_some o (collect f (suc lo) n)) (h lo (omega arith) (omega arith))
      ∙ ap (cons_some (g lo)) rest

  cons_some-append : (o : Option A) (xs ys : List A) → cons_some o (xs ++ ys) ≡ cons_some o xs ++ ys
  cons_some-append none xs ys = refl
  cons_some-append (some p) xs ys = refl

  pub collect-append :
      (f : ℕ → Option A) (lo m n : ℕ)
      → collect f lo (m + n) ≡ collect f lo m ++ collect f (lo + m) n
  unfolding collect
  collect-append f lo zero n =
      let a : 0 + n ≡ n = omega arith in let b : lo + 0 ≡ lo = omega arith in rw (a, b) refl
  collect-append f lo (suc m) n =
      let a : suc m + n ≡ suc (m + n) = omega arith in
      let b : lo + suc m ≡ suc lo + m = omega arith in
      ap (collect f lo) a
      ∙ ap (cons_some (f lo)) (collect-append f (suc lo) m n)
      ∙ cons_some-append (f lo) (collect f (suc lo) m) (collect f (suc lo + m) n)
      ∙ ap (λ (k : ℕ). cons_some (f lo) (collect f (suc lo) m) ++ collect f k n) (sym b)

  pub collect-none :
      (f : ℕ → Option A) (lo n : ℕ)
      → ((k : ℕ) → lo ≤ k → k < lo + n → f k ≡ none)
      → collect f lo n ≡ []
  unfolding collect
  collect-none f lo zero h = refl
  collect-none f lo (suc n) h =
      ap (λ (o : Option A). cons_some o (collect f (suc lo) n)) (h lo (omega arith) (omega arith))
      ∙ collect-none f (suc lo) n (λ k a b. h k (omega arith) (omega arith))

  pub then-Hands :
      (h : ℕ → Option A) (lo : ℕ) (r1 r2 : PacketReorder A) (out more : List A)
      → Hands h lo (r1, out)
      → Releases r1 (r2, more)
      → Hands h lo (r2, out ++ more)
  then-Hands h lo r1 r2 out more a b = record {
    numbers = a.numbers + b.numbers;
    moved = omega (arith, a.moved, b.moved);
    handed =
        ap (λ (t : List A). t ++ more) a.handed
        ∙ ap (λ (t : List A). collect h lo a.numbers ++ t)
            (b.handed
              ∙ ap (λ (k : ℕ). collect (held r1) k b.numbers) a.moved
              ∙ collect_same (held r1) h (lo + a.numbers) b.numbers
                  (λ k low high. a.kept k (omega (arith, a.moved))))
        ∙ sym (collect-append h lo a.numbers b.numbers);
    kept = λ k above. b.kept k above ∙ a.kept k (omega (arith, a.moved, b.moved));
  }

  -- What is held depends on the slots alone.
  pub held_same : (r r' : PacketReorder A) (k : ℕ) → r'.slots ≡ r.slots → held r' k ≡ held r k
  unfolding held
  held_same r r' k e =
      ap (λ (xs : List (Option (ℕ × A))). value_of k (get_or xs (k % bond_reorder_window) none)) e

  pub held_slot :
      (r : PacketReorder A) (k : ℕ) (p : A)
      → get_or r.slots (k % 256) none ≡ some (k, p)
      → held r k ≡ some p
  unfolding held value_of
  held_slot r k p e = let same : (k == k) ≡ true = ground arith in rw (e, value_of) (rw same refl)

  -- The packet in a slot of the window has the number of that slot.
  pub slot_number :
      (r : PacketReorder A) (k seq : ℕ) (p : A)
      → IsOrderly r
      → get_or r.slots (k % 256) none ≡ some (seq, p)
      → r.next ≤ k
      → k < r.next + 256
      → seq ≡ k
  slot_number r k seq p v e lo hi =
      let (at, low, high, top) = v.filled (k % 256) seq p e in omega (arith, at, low, high)

  -- Numbers outside the window are not held.
  pub held_below : (r : PacketReorder A) (k : ℕ) → IsOrderly r → k < r.next → held r k ≡ none
  unfolding held
  held_below r k v h = elim (Option-cases (get_or r.slots (k % 256) none)) [
    | inl e ↦ rw e refl
    | inr ((seq, p), e) ↦
        let (at, lo, hi, top) = v.filled (k % 256) seq p e in
        let other : (seq == k) ≡ false = ground arith in rw (e, other) refl
  ]

  pub held_beyond : (r : PacketReorder A) (k : ℕ) → IsOrderly r → r.next + 256 ≤ k → held r k ≡ none
  unfolding held
  held_beyond r k v h = elim (Option-cases (get_or r.slots (k % 256) none)) [
    | inl e ↦ rw e refl
    | inr ((seq, p), e) ↦
        let (at, lo, hi, top) = v.filled (k % 256) seq p e in
        let other : (seq == k) ≡ false = ground arith in rw (e, other) refl
  ]

  pub count-set-none :
      (xs : List (Option (ℕ × A))) (i : ℕ) (x : ℕ × A)
      → get_or xs i none ≡ some x
      → suc (count (set xs i none)) ≡ count xs
  unfolding count
  count-set-none [] i x e = absurd (cc)
  count-set-none (none ∷ xs) zero x e = absurd (cc)
  count-set-none (some y ∷ xs) zero x e = refl
  count-set-none (none ∷ xs) (suc i) x e = count-set-none xs i x e
  count-set-none (some y ∷ xs) (suc i) x e = ap suc (count-set-none xs i x e)

  pub count-set-some :
      (xs : List (Option (ℕ × A))) (i : ℕ) (x : ℕ × A)
      → get_or xs i none ≡ none
      → i < length xs
      → count (set xs i (some x)) ≡ suc (count xs)
  unfolding count
  count-set-some [] i x e h = absurd (omega arith)
  count-set-some (none ∷ xs) zero x e h = refl
  count-set-some (some y ∷ xs) zero x e h = absurd (cc)
  count-set-some (none ∷ xs) (suc i) x e h = count-set-some xs i x e (omega arith)
  count-set-some (some y ∷ xs) (suc i) x e h = ap suc (count-set-some xs i x e (omega arith))

  pub count_le_length : (xs : List (Option (ℕ × A))) → count xs ≤ length xs
  unfolding count
  count_le_length [] = omega arith
  count_le_length (none ∷ xs) = omega (arith, count_le_length xs)
  count_le_length (some x ∷ xs) = omega (arith, count_le_length xs)
