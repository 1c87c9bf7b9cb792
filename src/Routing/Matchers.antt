-- ===== src/Routing/Matchers.antt =====
-- What each matcher of node/rules.go decides.
use tamizdat.Prelude.Text.{
  Holds, text_eq, text_eq_refl, text_eq→≡, contains, contains-Holds, contains_append,
}
use tamizdat.Routing.Match.{suffix_matches}
use tamizdat.Prelude.{
  List, ◌∷◌, ◌≡◌, ℕ, true, ◌<◌, get_or, drop, ◌⊎◌, ◌↔◌, length, ◌++◌, ◌+◌, [], arith, refl, suc,
  zero, Bool-cases, length-append, inl, inr, ◌-◌, ◌∙◌, le→ltb, take, sym, take-append-drop, ap,
}
use tamizdat.Prelude.Bytes.{Bytes}

-- A member of the list satisfies `P`.
pub data Some {A : Type 0} (P : A → Type 0) : List A → Type 0 where
  here : {x : A} {xs : List A} → P x → Some P (x ∷ xs)
  there : {x : A} {xs : List A} → Some P xs → Some P (x ∷ xs)

pub text_eq_iff : (xs ys : Bytes) → (text_eq xs ys ≡ true) ↔ (xs ≡ ys)
text_eq_iff xs ys = (text_eq→≡ xs ys, λ q. rw (q, text_eq_refl ys))

pub contains_iff : (part text : Bytes) → (contains part text ≡ true) ↔ Holds part text
contains_iff part text =
    (contains-Holds part text, λ h. rw (h.parted, contains_append h.before part h.behind))

drop-get_or : (xs : Bytes) (i : ℕ) → i < length xs → drop i xs ≡ get_or xs i 0 ∷ drop (i + 1) xs
drop-get_or [] i h = absurd (ground arith)
drop-get_or (x ∷ xs) zero h = ground arith
drop-get_or (x ∷ xs) (suc i) h = ground (arith, drop-get_or xs i)

get_or-append : (xs ys : Bytes) (y : ℕ) → get_or (xs ++ y ∷ ys) (length xs) 0 ≡ y
get_or-append [] ys y = refl
get_or-append (x ∷ xs) ys y = get_or-append xs ys y

drop-append_cons : (xs ys : Bytes) (y : ℕ) → drop (length xs + 1) (xs ++ y ∷ ys) ≡ ys
drop-append_cons [] ys y = ground arith
drop-append_cons (x ∷ xs) ys y = ground (arith, drop-append_cons xs ys y)

-- The host is the suffix, or ends with a dot and the suffix.
abbrev pub EndsWith : Bytes → Bytes → Type 0
EndsWith s h = (h ≡ s) ⊎ ((p : Bytes) × (h ≡ p ++ 46 ∷ s))

suffix-ends : (s h : Bytes) → suffix_matches s h ≡ true → EndsWith s h
unfolding suffix_matches
suffix-ends s h m = elim (Bool-cases (text_eq h s)) [
  | inl e ↦ inl (text_eq→≡ h s e)
  | inr e ↦
      let i = length h - length s - 1 in
      let long : length s < length h = ground arith in
      let next : i + 1 ≡ length h - length s = omega (arith, long) in
      let dot : get_or h i 0 ≡ 46 = ground (arith, long) in
      let tail : drop (i + 1) h ≡ s =
        text_eq→≡ (drop (i + 1) h) s (rw next (ground (arith, long, dot))) in
      let cut : drop i h ≡ 46 ∷ s = drop-get_or h i (omega (arith, long)) ∙ rw (dot, tail) in
      inr (take i h, sym (take-append-drop i h) ∙ ap (λ (t : Bytes). take i h ++ t) cut)
]

ends-suffix : (s p : Bytes) → suffix_matches s (p ++ 46 ∷ s) ≡ true
unfolding suffix_matches
ends-suffix s p =
    let whole : length (p ++ 46 ∷ s) ≡ length p + suc (length s) = length-append p (46 ∷ s) in
    let at_dot : length (p ++ 46 ∷ s) - length s - 1 ≡ length p = omega (arith, whole) in
    let at_tail : length (p ++ 46 ∷ s) - length s ≡ length p + 1 = omega (arith, whole) in
    elim (Bool-cases (text_eq (p ++ 46 ∷ s) s)) [
      | inl e ↦ rw e
      | inr e ↦ rw (
        e,
        le→ltb (length (p ++ 46 ∷ s)) (length s + 1) (omega (arith, whole)),
        at_dot,
        get_or-append p s 46,
        at_tail,
        drop-append_cons p s 46,
        text_eq_refl s,
      )
    ]

-- A suffix matcher accepts exactly the hosts that are the suffix or that end with a dot and the suffix.
pub suffix_matches_iff : (s h : Bytes) → (suffix_matches s h ≡ true) ↔ EndsWith s h
unfolding suffix_matches
suffix_matches_iff s h = (
  suffix-ends s h,
  λ e. elim e [ inl q ↦ rw (q, text_eq_refl s) | inr (p, q) ↦ rw (q, ends-suffix s p) ],
)
