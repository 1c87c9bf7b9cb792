-- ===== src/DownSched/Tally.antt =====
-- The polls under way as a list of their streams: how many of them are of one stream.
use tamizdat.Prelude.{
  ℕ, List, ◌≡◌, ◌≤◌, ◌+◌, ◌-◌, ◌==◌, arith, [], ◌∷◌, if◌then◌else◌, Bool-cases, inl, inr, refl,
  false,
}

-- The times that a stream is in a list.
unfoldable pub count : ℕ → List ℕ → ℕ
count id [] = 0
count id (x ∷ xs) = if x == id then count id xs + 1 else count id xs

-- The list without one entry of a stream.
unfoldable pub less : ℕ → List ℕ → List ℕ
less id [] = []
less id (x ∷ xs) = if x == id then xs else x ∷ less id xs

pub count_more : (id : ℕ) (xs : List ℕ) → count id (id ∷ xs) ≡ count id xs + 1
unfolding count
count_more id xs = ground arith

pub count_other :
    (id other : ℕ) (xs : List ℕ) → (other == id) ≡ false → count other (id ∷ xs) ≡ count other xs
unfolding count
count_other id other xs e = ground arith

pub count-less : (id : ℕ) (xs : List ℕ) → count id (less id xs) ≡ count id xs - 1
unfolding count less
count-less id [] = refl
count-less id (x ∷ xs) = elim (Bool-cases (x == id)) [
  | inl e ↦ rw e (omega arith)
  | inr e ↦ rw (e, less) rw (e, count) (count-less id xs)
]

pub count-less_other :
    (id other : ℕ) (xs : List ℕ) → (other == id) ≡ false → count other (less id xs) ≡ count other xs
unfolding count less
count-less_other id other [] h = refl
count-less_other id other (x ∷ xs) h =
    let rest = count-less_other id other xs h in
    elim (Bool-cases (x == id)) [
      | inl e ↦ let apart : (x == other) ≡ false = ground arith in rw (e, apart) refl
      | inr e ↦ rw (e, less) (ground (arith, rest))
    ]

pub count_less_le : (id other : ℕ) (xs : List ℕ) → count other (less id xs) ≤ count other xs
count_less_le id other xs = elim (Bool-cases (other == id)) [
  | inl e ↦ let here : other ≡ id = ground arith in rw here (omega (arith, count-less id xs))
  | inr e ↦ omega (arith, count-less_other id other xs e)
]
