-- ===== src/BondServer/Registry/Retire.antt =====
-- The retirement of a device's older bonds, and the loss of bonds, keep the registry sound.
use tamizdat.Prelude.Text.{text_eq, text_eq→≡}
use tamizdat.BondServer.Registry.{
  BondKey, Keyed, for_device, kept, ServerBond, key_of, retire_device_bonds,
}
use tamizdat.BondServer.Registry.Counts.{
  for_key, key_eq_refl, kept_device, kept_other, kept_device_le, kept_key_le, length-kept-le,
}
use tamizdat.BondServer.Registry.Runs.{
  Run, System, retired_for, Pick, entry, Pick-for_key, Pick-for_device, Pick-retired_for,
  retired_for-le,
}
use tamizdat.BondServer.Registry.System.{IsLive, IsSound}
use tamizdat.Prelude.Bytes.{Bytes}
use tamizdat.Prelude.{
  ℕ, Bool, ◌∷◌, true, false, suc, arith, ◌≡◌, refl, length, ◌≤◌, ◌+◌, Bool-cases, sym, inl, ◌∙◌, ap,
  inr,
}

module _ (s : System) (v : IsSound s) (run : Run) (rest : Keyed Run)
    (pick : Pick (entry run) rest s.runs) where
  abbrev key : BondKey
  key = key_of run.bind

  abbrev later : Run
  later = record run { retired = true }

  abbrev retired : System
  retired = record { registry = retire_device_bonds key s.registry; runs = entry later ∷ rest }

  retired-free :
      (l : IsLive s) (asked : BondKey)
      → for_key asked (entry later ∷ rest) + for_key asked (kept key s.registry.bonds) ≤ 1
  unfolding for_key
  retired-free l asked =
      let runs : for_key asked s.runs ≡ for_key asked (entry later ∷ rest) =
        Pick-for_key asked pick in
      omega (arith, runs, l.free asked, kept_key_le key asked s.registry.bonds)

  later-alone : (l : IsLive s) (device : Bytes) → retired_for device (entry later ∷ rest) ≤ 1
  unfolding for_device
  later-alone l device =
      let runs : for_device device s.runs ≡ for_device device (entry later ∷ rest) =
        Pick-for_device device pick in
      omega (
        arith,
        runs,
        l.devices device,
        v.one_claim device,
        retired_for-le device (entry later ∷ rest),
      )

  none_of_key : (l : IsLive s) → for_key key s.registry.bonds ≡ 0
  unfolding for_key
  none_of_key l =
      let here : for_key key s.runs ≡ suc (for_key key rest) =
        Pick-for_key key pick ∙ rw (key_eq_refl key) refl in
      omega (arith, here, l.free key)

  -- No bond of the device is left: its own key has none either.
  retired-taken :
      (l : IsLive s) (device : Bytes)
      → retired_for device (entry later ∷ rest) + for_device device (kept key s.registry.bonds) ≤ 1
  unfolding retired_for
  retired-taken l device = elim (Bool-cases (text_eq key.device_id device)) [
    | inl mine ↦
        let bonds : for_device device (kept key s.registry.bonds) ≡ for_key key s.registry.bonds =
          ap (λ (d : Bytes). for_device d (kept key s.registry.bonds))
            (sym (text_eq→≡ key.device_id device mine))
          ∙ kept_device key s.registry.bonds in
        omega (arith, later-alone l device, bonds, none_of_key l)
    | inr other ↦
        let runs : retired_for device s.runs ≡ retired_for device (entry run ∷ rest) =
          Pick-retired_for device pick in
        let bonds = kept_other key device s.registry.bonds other in
        let now : retired_for device (entry later ∷ rest) ≡ retired_for device s.runs =
          rw (runs, other) refl in
        omega (arith, now, bonds, l.taken device)
  ]

  pub retired-IsSound : IsSound retired
  unfolding retire_device_bonds for_key for_device
  retired-IsSound = record {
    one_bond =
        λ device. omega (arith, v.one_bond device, kept_device_le key device s.registry.bonds);
    one_claim = v.one_claim;
    capacity = omega (arith, v.capacity, length-kept-le key s.registry.bonds);
    live = λ o.
        let l = v.live o in
        record {
          claimed = λ asked. sym (Pick-for_key asked pick) ∙ l.claimed asked;
          devices = λ device. sym (Pick-for_device device pick) ∙ l.devices device;
          free = retired-free l;
          taken = retired-taken l;
        };
  }

-- A state with fewer bonds, and the same calls and claims.
module _ (s : System) (v : IsSound s) (bonds : Keyed ServerBond) (flags : ℕ → Bool)
    (closed : Bool) where
  abbrev fewer : System
  fewer = record s {
    registry = record s.registry { bonds = bonds; closing = flags; closed = closed };
  }

  pub fewer-IsSound :
      (closed ≡ false → s.registry.closed ≡ false)
      → ((device : Bytes) → for_device device bonds ≤ for_device device s.registry.bonds)
      → ((asked : BondKey) → for_key asked bonds ≤ for_key asked s.registry.bonds)
      → length bonds ≤ length s.registry.bonds
      → IsSound fewer
  fewer-IsSound still devices keys len = record {
    one_bond = λ device. omega (arith, devices device, v.one_bond device);
    one_claim = v.one_claim;
    capacity = omega (arith, len, v.capacity);
    live = λ o.
        let l = v.live (still o) in
        record {
          claimed = l.claimed;
          devices = l.devices;
          free = λ asked. omega (arith, l.free asked, keys asked);
          taken = λ device. omega (arith, l.taken device, devices device);
        };
  }
