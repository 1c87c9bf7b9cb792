-- ===== src/Prelude/Text.antt =====
-- The operations on strings that the models use: `==`, strings.Contains,
-- strings.TrimSuffix with one byte, and slicing.
use tamizdat.Prelude.Bytes.{Bytes}
use tamizdat.Prelude.{
  Bool, List, ◌≡◌, ◌++◌, true, ◌∷◌, false, ◌==◌, ◌||◌, if◌then◌else◌, arith, Bool-cases, ◌&&◌, inl,
  [], inr, refl, ap,
}

-- `==` of two strings.
unfoldable pub text_eq : Bytes → Bytes → Bool
text_eq [] [] = true
text_eq [] (y ∷ ys) = false
text_eq (x ∷ xs) [] = false
text_eq (x ∷ xs) (y ∷ ys) = x == y && text_eq xs ys

unfoldable pub starts_with : Bytes → Bytes → Bool
starts_with [] text = true
starts_with (x ∷ part) [] = false
starts_with (x ∷ part) (y ∷ text) = x == y && starts_with part text

-- strings.Contains, with the part looked for first.
unfoldable pub contains : Bytes → Bytes → Bool
contains part [] = starts_with part []
contains part (y ∷ text) = starts_with part (y ∷ text) || contains part text

-- strings.TrimSuffix(text, ".").
unfoldable pub trim_dot : Bytes → Bytes
trim_dot [] = []
trim_dot (x ∷ []) = if x == 46 then [] else x ∷ []
trim_dot (x ∷ y ∷ text) = x ∷ trim_dot (y ∷ text)

-- A set of strings, as the keys of a Go map.
unfoldable pub has_text : Bytes → List Bytes → Bool
has_text text [] = false
has_text text (t ∷ more) = text_eq t text || has_text text more

pub text_eq_refl : (xs : Bytes) → text_eq xs xs ≡ true
unfolding text_eq
text_eq_refl [] = refl
text_eq_refl (x ∷ xs) = ground (arith, text_eq_refl xs)

pub text_eq→≡ : (xs ys : Bytes) → text_eq xs ys ≡ true → xs ≡ ys
unfolding text_eq
text_eq→≡ [] [] h = refl
text_eq→≡ [] (y ∷ ys) h = absurd (ground arith)
text_eq→≡ (x ∷ xs) [] h = absurd (ground arith)
text_eq→≡ (x ∷ xs) (y ∷ ys) h = ground (arith, text_eq→≡ xs ys)

pub starts_with-cut :
    (part text : Bytes) → starts_with part text ≡ true → (rest : Bytes) × (text ≡ part ++ rest)
unfolding starts_with
starts_with-cut [] text h = (text, refl)
starts_with-cut (x ∷ part) [] h = absurd (ground arith)
starts_with-cut (x ∷ part) (y ∷ text) h =
    let more = starts_with-cut part text (ground arith) in (more.0, ground (arith, more.1))

pub starts_with_append : (part rest : Bytes) → starts_with part (part ++ rest) ≡ true
unfolding starts_with
starts_with_append [] rest = refl
starts_with_append (x ∷ part) rest = ground (arith, starts_with_append part rest)

-- A text holds a part when it is the part between two others.
pub record Holds (part text : Bytes) : Type 0 where
  pub before : Bytes
  pub behind : Bytes
  pub parted : text ≡ before ++ part ++ behind

pub contains-Holds : (part text : Bytes) → contains part text ≡ true → Holds part text
unfolding contains
contains-Holds part [] h =
    let cut = starts_with-cut part [] h in record { before = []; behind = cut.0; parted = cut.1 }
contains-Holds part (y ∷ text) h = elim (Bool-cases (starts_with part (y ∷ text))) [
  | inl s ↦
      let cut = starts_with-cut part (y ∷ text) s in
      record { before = []; behind = cut.0; parted = cut.1 }
  | inr s ↦
      let more = contains-Holds part text (ground arith) in
      record {
        before = y ∷ more.before;
        behind = more.behind;
        parted = ap (λ (t : Bytes). y ∷ t) more.parted;
      }
]

pub contains_append : (before part behind : Bytes) → contains part (before ++ part ++ behind) ≡ true
unfolding contains starts_with
contains_append [] [] [] = refl
contains_append [] [] (y ∷ behind) = refl
contains_append [] (x ∷ part) behind = ground (arith, starts_with_append (x ∷ part) behind)
contains_append (x ∷ before) part behind = ground (arith, contains_append before part behind)
