-- ===== src/BondServer/Rooms/Listed.antt =====
-- The orders of the rooms and of their workers list what the maps hold.
use tamizdat.BondServer.Rooms.{insert_sorted, without}
use tamizdat.Prelude.Assoc.{
  Assoc, lookup, insert, erase, lookup-insert, lookup-erase, Distinct, insert-Distinct,
  erase-Distinct,
}
use tamizdat.Prelude.{
  ℕ, List, none, ◌∷◌, [], ◌==◌, ltb, true, arith, ◌≡◌, ◌≢◌, refl, Bool-cases, inl, inr, ◌⊎◌, ap,
  sym, ◌∙◌,
}
use mathlib.Core.Path.{subst}

abbrev pub Has : ℕ → List ℕ → Type 0
Has x [] = ⊥
Has x (y ∷ ys) = (y ≡ x) ⊎ Has x ys

-- No number stands twice.
abbrev pub IsOnce : List ℕ → Type 0
IsOnce [] = Unit
IsOnce (y ∷ ys) = ¬ Has y ys × IsOnce ys

insert_sorted-Has : (x z : ℕ) (ys : List ℕ) → (z ≡ x) ⊎ Has x ys → Has x (insert_sorted z ys)
unfolding insert_sorted
insert_sorted-Has x z [] h = h
insert_sorted-Has x z (y ∷ ys) h = elim (Bool-cases (ltb z y)) [
  | inl first ↦ rw first h
  | inr later ↦ elim h [
    | inl new ↦ rw later (inr (insert_sorted-Has x z ys (inl new)))
    | inr (inl old) ↦ rw later (inl old)
    | inr (inr more) ↦ rw later (inr (insert_sorted-Has x z ys (inr more)))
  ]
]

Has-insert_sorted : (x z : ℕ) (ys : List ℕ) → Has x (insert_sorted z ys) → (z ≡ x) ⊎ Has x ys
unfolding insert_sorted
Has-insert_sorted x z [] h = h
Has-insert_sorted x z (y ∷ ys) h = elim (Bool-cases (ltb z y)) [
  | inl first ↦ rw first at h
  | inr later ↦
      let there : Has x (y ∷ insert_sorted z ys) = rw later at h in
      elim there [
        | inl old ↦ inr (inl old)
        | inr more ↦ elim (Has-insert_sorted x z ys more) [
          | inl new ↦ inl new
          | inr older ↦ inr (inr older)
        ]
      ]
]

insert_sorted-IsOnce : (z : ℕ) (ys : List ℕ) → ¬ Has z ys → IsOnce ys → IsOnce (insert_sorted z ys)
unfolding insert_sorted
insert_sorted-IsOnce z [] new o = (λ h. h, tt)
insert_sorted-IsOnce z (y ∷ ys) new o = elim (Bool-cases (ltb z y)) [
  | inl first ↦ rw first (new, o)
  | inr later ↦ rw later (
    λ h. elim (Has-insert_sorted y z ys h) [ inl same ↦ new (inl (sym same)) | inr old ↦ o.0 old ],
    insert_sorted-IsOnce z ys (λ h. new (inr h)) o.1,
  )
]

Has-without : (x z : ℕ) (ys : List ℕ) → Has x (without z ys) → Has x ys
unfolding without
Has-without x z [] h = h
Has-without x z (y ∷ ys) h = elim (Bool-cases (y == z)) [
  | inl same ↦ inr (rw same at h)
  | inr other ↦
      let there : Has x (y ∷ without z ys) = rw other at h in
      elim there [ inl here ↦ inl here | inr more ↦ inr (Has-without x z ys more) ]
]

without-Has : (x z : ℕ) (ys : List ℕ) → z ≢ x → Has x ys → Has x (without z ys)
unfolding without
without-Has x z [] ne h = h
without-Has x z (y ∷ ys) ne h = elim (Bool-cases (y == z)) [
  | inl same ↦ elim h [ inl here ↦ absurd (ne (ground arith)) | inr more ↦ rw same more ]
  | inr other ↦ elim h [
    | inl here ↦ rw other (inl here)
    | inr more ↦ rw other (inr (without-Has x z ys ne more))
  ]
]

without-gone : (z : ℕ) (ys : List ℕ) → IsOnce ys → ¬ Has z (without z ys)
unfolding without
without-gone z [] o h = h
without-gone z (y ∷ ys) o h = elim (Bool-cases (y == z)) [
  | inl same ↦
      let at : y ≡ z = ground arith in
      let there : Has z ys = rw same at h in o.0 (subst (λ (k : ℕ). Has k ys) (sym at) there)
  | inr other ↦
      let there : Has z (y ∷ without z ys) = rw other at h in
      elim there [ inl here ↦ absurd (ground arith) | inr more ↦ without-gone z ys o.1 more ]
]

without-IsOnce : (z : ℕ) (ys : List ℕ) → IsOnce ys → IsOnce (without z ys)
unfolding without
without-IsOnce z [] o = tt
without-IsOnce z (y ∷ ys) o = elim (Bool-cases (y == z)) [
  | inl same ↦ rw same o.1
  | inr other ↦ rw other (λ h. o.0 (Has-without y z ys h), without-IsOnce z ys o.1)
]

pub ==→≡ : (k j : ℕ) → (k == j) ≡ true → k ≡ j
==→≡ k j h = ground arith

inserted_none :
    {V : Type 0} (k j : ℕ) (x : V) (m : Assoc V)
    → lookup j (insert k x m) ≡ none
    → lookup j m ≡ none
inserted_none k j x m e = ground (arith, lookup-insert k j x m)

inserted_there :
    {V : Type 0} (k j : ℕ) (x : V) (m : Assoc V) → k ≡ j → lookup j (insert k x m) ≢ none
inserted_there k j x m same e = absurd (ground (arith, lookup-insert k j x m))

-- An order lists the keys of a map, each once.
pub record Lists {V : Type 0} (order : List ℕ) (m : Assoc V) : Type 0 where
  pub there : (k : ℕ) → Has k order → lookup k m ≢ none
  pub listed : (k : ℕ) → lookup k m ≢ none → Has k order
  pub once : IsOnce order
  pub distinct : Distinct m

module _ {V : Type 0} (order : List ℕ) (m : Assoc V) (v : Lists order m) where
  -- A new value under a key that is there.
  pub insert_old-Lists : (k : ℕ) (x : V) → lookup k m ≢ none → Lists order (insert k x m)
  insert_old-Lists k x old = record {
    there = λ j h e. v.there j h (inserted_none k j x m e);
    listed = λ j e. elim (Bool-cases (k == j)) [
      | inl same ↦
          v.listed j (λ missing. old (ap (λ (i : ℕ). lookup i m) (==→≡ k j same) ∙ missing))
      | inr other ↦ v.listed j (λ missing. e (lookup-insert k j x m ∙ rw other missing))
    ];
    once = v.once;
    distinct = insert-Distinct k x m v.distinct;
  }

  -- A new key.
  pub insert_new-Lists :
      (k : ℕ) (x : V) → lookup k m ≡ none → Lists (insert_sorted k order) (insert k x m)
  insert_new-Lists k x fresh = record {
    there = λ j h e. elim (Has-insert_sorted j k order h) [
      | inl new ↦ inserted_there k j x m new e
      | inr old ↦ v.there j old (inserted_none k j x m e)
    ];
    listed = λ j e. elim (Bool-cases (k == j)) [
      | inl same ↦ insert_sorted-Has j k order (inl (==→≡ k j same))
      | inr other ↦
          insert_sorted-Has j k order
            (inr (v.listed j (λ missing. e (lookup-insert k j x m ∙ rw other missing))))
    ];
    once = insert_sorted-IsOnce k order (λ h. v.there k h fresh) v.once;
    distinct = insert-Distinct k x m v.distinct;
  }

  -- A key that goes.
  pub erase-Lists : (k : ℕ) → Lists (without k order) (erase k m)
  erase-Lists k = record {
    there = λ j h e. elim (Bool-cases (k == j)) [
      | inl same ↦
          without-gone k order v.once
            (subst (λ (i : ℕ). Has i (without k order)) (sym (==→≡ k j same)) h)
      | inr other ↦
          v.there j (Has-without j k order h)
            (sym (lookup-erase k j m v.distinct ∙ rw other refl) ∙ e)
    ];
    listed = λ j e. elim (Bool-cases (k == j)) [
      | inl same ↦ absurd (e (lookup-erase k j m v.distinct ∙ rw same refl))
      | inr other ↦
          without-Has j k order (λ same. absurd (ground arith))
            (v.listed j (λ missing. e (lookup-erase k j m v.distinct ∙ rw other missing)))
    ];
    once = without-IsOnce k order v.once;
    distinct = erase-Distinct k m v.distinct;
  }
