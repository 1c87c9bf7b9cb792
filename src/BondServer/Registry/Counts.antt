-- ===== src/BondServer/Registry/Counts.antt =====
-- How many entries of a map stand for a key, and for a device, behind the operations on it.
use tamizdat.Prelude.Text.{text_eq, text_eq_refl, text_eq→≡}
use tamizdat.BondServer.Registry.{
  BondKey, key_eq, Keyed, find, delete, for_device, kept, ServerBond,
}
use tamizdat.Prelude.Bytes.{Bytes}
use tamizdat.Prelude.{
  ℕ, none, ◌∷◌, [], length, if◌then◌else◌, true, false, ◌+◌, suc, arith, ◌≡◌, refl, ap, Bool-cases,
  inl, inr, ◌≤◌, ◌∙◌,
}

pub key_eq_refl : (a : BondKey) → key_eq a a ≡ true
unfolding key_eq
key_eq_refl a = ground (arith, text_eq_refl a.device_id, text_eq_refl a.run_id)

pub key_eq→≡ : (a b : BondKey) → key_eq a b ≡ true → a ≡ b
unfolding key_eq
key_eq→≡ a b h =
    let d : a.device_id ≡ b.device_id = text_eq→≡ a.device_id b.device_id (ground arith) in
    let r : a.run_id ≡ b.run_id = text_eq→≡ a.run_id b.run_id (ground arith) in
    λ i. record { device_id = d i; run_id = r i }

pub key_eq-device : (a b : BondKey) → key_eq a b ≡ true → text_eq a.device_id b.device_id ≡ true
unfolding key_eq
key_eq-device a b h = ground arith

module _ {V : Type 0} where
  -- The entries of a key.
  unfoldable pub for_key : BondKey → Keyed V → ℕ
  for_key key [] = 0
  for_key key ((other, value) ∷ more) =
      let rest = for_key key more in if key_eq other key then suc rest else rest

  pub for_key-le-for_device :
      (key : BondKey) (m : Keyed V) → for_key key m ≤ for_device key.device_id m
  unfolding for_key for_device
  for_key-le-for_device key [] = omega arith
  for_key-le-for_device key ((other, value) ∷ more) =
      ground (arith, for_key-le-for_device key more, key_eq-device other key)

  pub find-none : (key : BondKey) (m : Keyed V) → find key m ≡ none → for_key key m ≡ 0
  unfolding find for_key
  find-none key [] h = refl
  find-none key ((other, value) ∷ more) h = ground (arith, find-none key more)

  pub find-of-for_key : (key : BondKey) (m : Keyed V) → for_key key m ≡ 0 → find key m ≡ none
  unfolding find for_key
  find-of-for_key key [] h = refl
  find-of-for_key key ((other, value) ∷ more) h = ground (arith, find-of-for_key key more)

  pub delete_key : (key : BondKey) (m : Keyed V) → for_key key (delete key m) ≡ 0
  unfolding delete for_key
  delete_key key [] = refl
  delete_key key ((other, value) ∷ more) = ground (arith, delete_key key more)

  pub delete_other :
      (key asked : BondKey) (m : Keyed V)
      → key_eq key asked ≡ false
      → for_key asked (delete key m) ≡ for_key asked m
  unfolding delete for_key
  delete_other key asked [] h = refl
  delete_other key asked ((other, value) ∷ more) h = elim (Bool-cases (key_eq other key)) [
    | inl same ↦
        let apart : key_eq other asked ≡ false =
          ap (λ (k : BondKey). key_eq k asked) (key_eq→≡ other key same) ∙ h in
        rw (same, apart) (delete_other key asked more h)
    | inr differ ↦ rw differ (ground (arith, delete_other key asked more h))
  ]

  pub delete_key_le :
      (key asked : BondKey) (m : Keyed V) → for_key asked (delete key m) ≤ for_key asked m
  unfolding delete for_key
  delete_key_le key asked [] = omega arith
  delete_key_le key asked ((other, value) ∷ more) = ground (arith, delete_key_le key asked more)

  pub delete_device :
      (key : BondKey) (device : Bytes) (m : Keyed V)
      → for_device device m
        ≡ for_device device (delete key m)
          + (if text_eq key.device_id device then for_key key m else 0)
  unfolding delete for_key for_device
  delete_device key device [] = ground arith
  delete_device key device ((other, value) ∷ more) = elim (Bool-cases (key_eq other key)) [
    | inl same ↦
        let one : text_eq other.device_id device ≡ text_eq key.device_id device =
          ap (λ (k : BondKey). text_eq k.device_id device) (key_eq→≡ other key same) in
        rw (same, one) (ground (arith, delete_device key device more))
    | inr differ ↦ rw differ (ground (arith, delete_device key device more))
  ]

  pub length-delete :
      (key : BondKey) (m : Keyed V) → length m ≡ length (delete key m) + for_key key m
  unfolding delete for_key
  length-delete key [] = refl
  length-delete key ((other, value) ∷ more) = ground (arith, length-delete key more)

-- What is left where a device's bonds are retired.
pub kept_device :
    (keep : BondKey) (m : Keyed ServerBond)
    → for_device keep.device_id (kept keep m) ≡ for_key keep m
unfolding kept for_device for_key
kept_device keep [] = refl
kept_device keep ((key, bond) ∷ more) =
    ground (arith, kept_device keep more, key_eq-device key keep)

pub kept_other :
    (keep : BondKey) (device : Bytes) (m : Keyed ServerBond)
    → text_eq keep.device_id device ≡ false
    → for_device device (kept keep m) ≡ for_device device m
unfolding kept for_device
kept_other keep device [] h = refl
kept_other keep device ((key, bond) ∷ more) h =
    elim (Bool-cases (text_eq key.device_id keep.device_id)) [
      | inl same ↦
          let apart : text_eq key.device_id device ≡ false =
            ap (λ (d : Bytes). text_eq d device) (text_eq→≡ key.device_id keep.device_id same)
            ∙ h in
          rw (same, apart) (ground (arith, kept_other keep device more h))
      | inr differ ↦ rw differ (ground (arith, kept_other keep device more h))
    ]

pub kept_device_le :
    (keep : BondKey) (device : Bytes) (m : Keyed ServerBond)
    → for_device device (kept keep m) ≤ for_device device m
unfolding kept for_device
kept_device_le keep device [] = omega arith
kept_device_le keep device ((key, bond) ∷ more) = ground (arith, kept_device_le keep device more)

pub kept_key_le :
    (keep asked : BondKey) (m : Keyed ServerBond) → for_key asked (kept keep m) ≤ for_key asked m
unfolding kept for_key
kept_key_le keep asked [] = omega arith
kept_key_le keep asked ((key, bond) ∷ more) = ground (arith, kept_key_le keep asked more)

pub length-kept-le : (keep : BondKey) (m : Keyed ServerBond) → length (kept keep m) ≤ length m
unfolding kept
length-kept-le keep [] = omega arith
length-kept-le keep ((key, bond) ∷ more) = ground (arith, length-kept-le keep more)
