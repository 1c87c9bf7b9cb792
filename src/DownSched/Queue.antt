-- ===== src/DownSched/Queue.antt =====
-- Removing a stream keeps the round-robin order of the others.
use tamizdat.Prelude.{false, ◌⊎◌, inl, leb, inr, sym, ◌∙◌}
use tamizdat.DownSched.{Sched, cut_at, next_after, remove_at}
use tamizdat.Prelude.{
  ℕ, List, drop, length, ◌<◌, ◌≤◌, take, ◌++◌, ◌+◌, ◌≡◌, ◌∷◌, arith, suc, ap, [], zero, refl, ◌-◌,
  if◌then◌else◌, length-drop, append-nil, ltb,
}
use native.Mathlib.Decide.{dec_lt}
use mathlib.Core.Path.{subst}

-- The streams in the order in which the scan visits them.
abbrev pub rotation : ℕ → List ℕ → List ℕ
rotation next xs = drop next xs ++ take next xs

cut_at-append_right : (a b : List ℕ) (i : ℕ) → cut_at (length a + i) (a ++ b) ≡ a ++ cut_at i b
unfolding cut_at
cut_at-append_right [] b i = ap (λ (k : ℕ). cut_at k b) (omega arith)
cut_at-append_right (x ∷ a) b i = ground (arith, cut_at-append_right a b i)

cut_at-append_left : (a b : List ℕ) (i : ℕ) → i < length a → cut_at i (a ++ b) ≡ cut_at i a ++ b
unfolding cut_at
cut_at-append_left [] b i h = absurd (ground arith)
cut_at-append_left (x ∷ a) b zero h = refl
cut_at-append_left (x ∷ a) b (suc i) h = ground (arith, cut_at-append_left a b i)

drop-cut_at_before : (xs : List ℕ) (n i : ℕ) → i ≤ n → drop n (cut_at i xs) ≡ drop (suc n) xs
unfolding cut_at
drop-cut_at_before [] zero i h = refl
drop-cut_at_before [] (suc n) i h = refl
drop-cut_at_before (x ∷ xs) n zero h = refl
drop-cut_at_before (x ∷ xs) zero (suc i) h = absurd (ground arith)
drop-cut_at_before (x ∷ xs) (suc n) (suc i) h = drop-cut_at_before xs n i (omega arith)

take-cut_at_before :
    (xs : List ℕ) (n i : ℕ) → i ≤ n → take n (cut_at i xs) ≡ cut_at i (take (suc n) xs)
unfolding cut_at
take-cut_at_before [] zero i h = refl
take-cut_at_before [] (suc n) i h = refl
take-cut_at_before (x ∷ xs) n zero h = refl
take-cut_at_before (x ∷ xs) zero (suc i) h = absurd (ground arith)
take-cut_at_before (x ∷ xs) (suc n) (suc i) h = ground (arith, take-cut_at_before xs n i)

drop-cut_at_behind : (xs : List ℕ) (n k : ℕ) → drop n (cut_at (n + k) xs) ≡ cut_at k (drop n xs)
unfolding cut_at
drop-cut_at_behind xs zero k = ap (λ (i : ℕ). cut_at i xs) (omega arith)
drop-cut_at_behind [] (suc n) k = refl
drop-cut_at_behind (x ∷ xs) (suc n) k = ground (arith, drop-cut_at_behind xs n k)

take-cut_at_behind : (xs : List ℕ) (n k : ℕ) → take n (cut_at (n + k) xs) ≡ take n xs
unfolding cut_at
take-cut_at_behind xs zero k = refl
take-cut_at_behind [] (suc n) k = refl
take-cut_at_behind (x ∷ xs) (suc n) k = ground (arith, take-cut_at_behind xs n k)

length-cut_at : (xs : List ℕ) (i : ℕ) → i < length xs → length (cut_at i xs) ≡ length xs - 1
unfolding cut_at
length-cut_at [] i h = absurd (ground arith)
length-cut_at (x ∷ xs) zero h = omega arith
length-cut_at (x ∷ xs) (suc i) h = omega (arith, length-cut_at xs i (omega arith))

-- The place in the rotation of the stream at an index.
abbrev pub place : ℕ → ℕ → ℕ → ℕ
place i next total = if ltb i next then total - next + i else i - next

-- An index before the next one: it lies in the second part of the rotation.
cut_before :
    (xs : List ℕ) (i n : ℕ)
    → i ≤ n
    → suc n < length xs
    → rotation n (cut_at i xs) ≡ cut_at (length xs - suc n + i) (rotation (suc n) xs)
cut_before xs i n le lt = rw (
  drop-cut_at_before xs n i le,
  take-cut_at_before xs n i le,
  ← length-drop (suc n) xs,
  cut_at-append_right (drop (suc n) xs) (take (suc n) xs) i,
)

-- An index at the next one or behind it: it lies in the first part.
cut_behind :
    (xs : List ℕ) (n k : ℕ)
    → n + k < length xs
    → rotation n (cut_at (n + k) xs) ≡ cut_at k (rotation n xs)
cut_behind xs n k lt = rw (
  drop-cut_at_behind xs n k,
  take-cut_at_behind xs n k,
  cut_at-append_left (drop n xs) (take n xs) k (omega (arith, length-drop n xs)),
)

-- A rotation by the whole length is none.
rotation_whole : (ys : List ℕ) (n : ℕ) → n ≡ length ys → rotation n ys ≡ rotation 0 ys
rotation_whole [] n h = rw h refl
rotation_whole (y ∷ ys) n h = rw (h, drop_length (y ∷ ys), take_length (y ∷ ys), append-nil ys)
  where
    drop_length : (zs : List ℕ) → drop (length zs) zs ≡ []
    drop_length [] = refl
    drop_length (z ∷ zs) = drop_length zs

    take_length : (zs : List ℕ) → take (length zs) zs ≡ zs
    take_length [] = refl
    take_length (z ∷ zs) = rw (take_length zs)

next_before :
    (i n total : ℕ)
    → i ≤ n
    → suc n < total
    → (next_after i (suc n) (total - 1) ≡ n) × (place i (suc n) total ≡ total - suc n + i)
unfolding next_after
next_before i n total le lt = (ground arith, ground arith)

next_behind :
    (n k total : ℕ)
    → n + k < total
    → ((next_after (n + k) n (total - 1) ≡ n)
        ⊎ ((next_after (n + k) n (total - 1) ≡ 0) × (n ≡ total - 1)))
      × (place (n + k) n total ≡ k)
unfolding next_after
next_behind n k total lt = (
  elim (dec_lt (suc n) total) [
    | yes h ↦ inl (ground arith)
    | no h ↦ inr (ground arith, omega arith)
  ],
  ground arith,
)

cut_next :
    (xs : List ℕ) (n k : ℕ)
    → n + k < length xs
    → rotation (next_after (n + k) n (length xs - 1)) (cut_at (n + k) xs)
      ≡ cut_at (place (n + k) n (length xs)) (rotation n xs)
cut_next xs n k h =
    let r = next_behind n k (length xs) h in
    elim r.0 [
      | inl e ↦ rw (e, r.1) (cut_behind xs n k h)
      | inr (e, m) ↦
          rw (e, r.1)
            (sym (rotation_whole (cut_at (n + k) xs) n (m ∙ sym (length-cut_at xs (n + k) h)))
              ∙ cut_behind xs n k h)
    ]

rotation_cut :
    (xs : List ℕ) (i n : ℕ)
    → i < length xs
    → n < length xs
    → rotation (next_after i n (length xs - 1)) (cut_at i xs)
      ≡ cut_at (place i n (length xs)) (rotation n xs)
rotation_cut xs i n h l = elim (dec_lt i n) [
  | no b ↦
      let k = i - n in
      let e : n + k ≡ i = omega arith in
      subst
        (λ (j : ℕ).
          rotation (next_after j n (length xs - 1)) (cut_at j xs)
          ≡ cut_at (place j n (length xs)) (rotation n xs))
        e (cut_next xs n k (omega arith))
  | yes b ↦ before n l b
]
  where
    before :
        (m : ℕ)
        → m < length xs
        → i < m
        → rotation (next_after i m (length xs - 1)) (cut_at i xs)
          ≡ cut_at (place i m (length xs)) (rotation m xs)
    before zero lt b = absurd (ground arith)
    before (suc m) lt b =
        let e = next_before i m (length xs) (omega arith) lt in
        rw (e.0, e.1) (cut_before xs i m (omega arith) lt)

-- Removing a stream at an index of the slice takes it out of the rotation and leaves the others in their
-- order, where the next index lies in the slice.
pub rotation-remove_at :
    (i : ℕ) (s : Sched)
    → i < length s.conns
    → s.next < length s.conns
    → rotation (remove_at i s).next (remove_at i s).conns
      ≡ cut_at (place i s.next (length s.conns)) (rotation s.next s.conns)
unfolding remove_at
rotation-remove_at i s h l =
    let e : leb (length s.conns) i ≡ false = ground arith in
    rw (e, remove_at) (rotation_cut s.conns i s.next h l)
