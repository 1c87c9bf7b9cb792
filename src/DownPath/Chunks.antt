-- ===== src/DownPath/Chunks.antt =====
-- The stream of a destination as the chunks that the producer reads of it.
use tamizdat.Prelude.Bytes.{Bytes}
use tamizdat.Prelude.{
  ℕ, Bool, List, some, ◌∷◌, [], ◌++◌, length, take, get_elem?, suc, zero, true, false, arith, ◌≡◌,
  ◌≤◌, ◌<◌, ◌⊎◌, refl, sym, ap, ◌∙◌, append_assoc, append-nil,
}

-- The bytes of chunks.
unfoldable pub joined : List Bytes → Bytes
joined [] = []
joined (c ∷ cs) = c ++ joined cs

-- A part of a stream of chunks: a chunk under its number, or the end, behind the last chunk of a producer that has
-- stopped.
abbrev pub Part : List Bytes → Bool → ℕ → Bytes → Bool → Type 0
Part chunks stopped seq bytes eof =
    ((eof ≡ false) × (get_elem? chunks seq ≡ some bytes))
    ⊎ ((eof ≡ true) × (seq ≡ length chunks) × (stopped ≡ true))

pub get_elem?-lt : (cs : List Bytes) (i : ℕ) (c : Bytes) → get_elem? cs i ≡ some c → i < length cs
get_elem?-lt [] i c e = absurd (cc)
get_elem?-lt (x ∷ cs) zero c e = omega arith
get_elem?-lt (x ∷ cs) (suc i) c e = omega (arith, get_elem?-lt cs i c e)

pub get_elem?-append :
    (cs more : List Bytes) (i : ℕ) (c : Bytes)
    → get_elem? cs i ≡ some c
    → get_elem? (cs ++ more) i ≡ some c
get_elem?-append [] more i c e = absurd (cc)
get_elem?-append (x ∷ cs) more zero c e = e
get_elem?-append (x ∷ cs) more (suc i) c e = get_elem?-append cs more i c e

pub get_elem?_last : (cs : List Bytes) (c : Bytes) → get_elem? (cs ++ c ∷ []) (length cs) ≡ some c
get_elem?_last [] c = refl
get_elem?_last (x ∷ cs) c = get_elem?_last cs c

pub take_within : (k : ℕ) (cs more : List Bytes) → k ≤ length cs → take k (cs ++ more) ≡ take k cs
take_within zero cs more h = refl
take_within (suc k) [] more h = absurd (omega arith)
take_within (suc k) (x ∷ cs) more h =
    ap (λ (t : List Bytes). x ∷ t) (take_within k cs more (omega arith))

pub take_over : (k : ℕ) (cs : List Bytes) → length cs ≤ k → take k cs ≡ cs
take_over zero [] h = refl
take_over zero (x ∷ cs) h = absurd (omega arith)
take_over (suc k) [] h = refl
take_over (suc k) (x ∷ cs) h = ap (λ (t : List Bytes). x ∷ t) (take_over k cs (omega arith))

pub joined_next :
    (cs : List Bytes) (k : ℕ) (c : Bytes)
    → get_elem? cs k ≡ some c
    → joined (take (suc k) cs) ≡ joined (take k cs) ++ c
unfolding joined
joined_next [] k c e = absurd (cc)
joined_next (x ∷ cs) zero c e = let q : x ≡ c = cc in rw q (append-nil c)
joined_next (x ∷ cs) (suc k) c e =
    ap (λ (t : Bytes). x ++ t) (joined_next cs k c e) ∙ sym (append_assoc x (joined (take k cs)) c)

pub nil_of : (xs : Bytes) → length xs ≡ 0 → xs ≡ []
nil_of [] e = refl
nil_of (x ∷ xs) e = absurd (omega arith)
