-- ===== src/BondServer/Registry/Leave.antt =====
-- A call that ends gives its claim back; with or without its bond in the map the registry stays sound.
use tamizdat.Prelude.Text.{text_eq, text_eq_refl}
use tamizdat.BondServer.Registry.{BondKey, key_eq, Keyed, for_device, delete, ServerBond, key_of}
use tamizdat.BondServer.Registry.Counts.{
  for_key, key_eq_refl, key_eq→≡, delete_key, delete_other, delete_device, length-delete,
}
use tamizdat.BondServer.Registry.Runs.{
  Run, System, retired_for, Pick, entry, Pick-for_key, Pick-for_device, Pick-retired_for,
}
use tamizdat.BondServer.Registry.System.{IsLive, IsSound}
use tamizdat.Prelude.Bytes.{Bytes}
use tamizdat.Prelude.{
  ℕ, Bool, ◌∷◌, true, false, suc, arith, ◌≡◌, refl, length, ◌≤◌, ◌+◌, ◌∙◌, Bool-cases, inl, ap, inr,
  sym,
}

module _ (s : System) (v : IsSound s) (run : Run) (rest : Keyed Run) (flags : ℕ → Bool)
    (pick : Pick (entry run) rest s.runs) where
  abbrev key : BondKey
  key = key_of run.bind

  -- The call's claim is its only one.
  one_of_key : (l : IsLive s) → (for_key key s.registry.claims ≡ 1) × (for_key key rest ≡ 0)
  unfolding for_key
  one_of_key l =
      let runs : for_key key s.runs ≡ suc (for_key key rest) =
        Pick-for_key key pick ∙ rw (key_eq_refl key) refl in
      let most : for_key key s.runs ≤ 1 = omega (arith, l.free key) in
      (omega (arith, l.claimed key, runs, most), omega (arith, runs, most))

  abbrev left : System
  left = record {
    registry = record s.registry { claims = delete key s.registry.claims; closing = flags };
    runs = rest;
  }

  left-claimed :
      (l : IsLive s) (asked : BondKey)
      → for_key asked rest ≡ for_key asked (delete key s.registry.claims)
  unfolding for_key
  left-claimed l asked = elim (Bool-cases (key_eq key asked)) [
    | inl mine ↦
        let at = key_eq→≡ key asked mine in
        ap (λ (k : BondKey). for_key k rest) (sym at)
        ∙ (one_of_key l).1
        ∙ sym (delete_key key s.registry.claims)
        ∙ ap (λ (k : BondKey). for_key k (delete key s.registry.claims)) at
    | inr other ↦
        let runs : for_key asked s.runs ≡ for_key asked rest =
          Pick-for_key asked pick ∙ rw other refl in
        sym runs ∙ l.claimed asked ∙ sym (delete_other key asked s.registry.claims other)
  ]

  left-devices :
      (l : IsLive s) (device : Bytes)
      → for_device device rest ≡ for_device device (delete key s.registry.claims)
  unfolding for_device
  left-devices l device =
      let runs : for_device device s.runs ≡ for_device device (entry run ∷ rest) =
        Pick-for_device device pick in
      let claims = delete_device key device s.registry.claims in
      let one = (one_of_key l).0 in ground (arith, runs, claims, one, l.devices device)

  left-free :
      (l : IsLive s) (asked : BondKey) → for_key asked rest + for_key asked s.registry.bonds ≤ 1
  unfolding for_key
  left-free l asked =
      let runs : for_key asked s.runs ≡ for_key asked (entry run ∷ rest) =
        Pick-for_key asked pick in
      ground (arith, runs, l.free asked)

  left-taken :
      (l : IsLive s) (device : Bytes)
      → retired_for device rest + for_device device s.registry.bonds ≤ 1
  unfolding retired_for
  left-taken l device =
      let runs : retired_for device s.runs ≡ retired_for device (entry run ∷ rest) =
        Pick-retired_for device pick in
      ground (arith, runs, l.taken device)

  left-one_claim : (device : Bytes) → for_device device (delete key s.registry.claims) ≤ 1
  left-one_claim device =
      omega (arith, delete_device key device s.registry.claims, v.one_claim device)

  pub left-IsSound : IsSound left
  left-IsSound = record {
    one_bond = v.one_bond;
    one_claim = left-one_claim;
    capacity = omega (arith, v.capacity, length-delete key s.registry.claims);
    live = λ o.
        let l = v.live o in
        record {
          claimed = left-claimed l;
          devices = left-devices l;
          free = left-free l;
          taken = left-taken l;
        };
  }

  -- The call has retired the device's bonds, and its own takes their place.
  module _ (bond : ServerBond) (retired : run.retired ≡ true) (o : s.registry.closed ≡ false) where
    abbrev joined : Keyed ServerBond
    joined = (key, bond) ∷ delete key s.registry.bonds

    abbrev stood : System
    stood = record {
      registry = record s.registry {
        claims = delete key s.registry.claims;
        bonds = joined;
        closing = flags;
      };
      runs = rest;
    }

    pub none_of_key : for_key key s.registry.bonds ≡ 0
    none_of_key = let l = v.live o in omega (arith, l.free key, l.claimed key, (one_of_key l).0)

    joined-taken : (device : Bytes) → retired_for device rest + for_device device joined ≤ 1
    unfolding retired_for for_device
    joined-taken device =
        let l = v.live o in
        let runs : retired_for device s.runs ≡ retired_for device (entry run ∷ rest) =
          Pick-retired_for device pick in
        let bonds = delete_device key device s.registry.bonds in
        elim (Bool-cases (text_eq key.device_id device)) [
          | inl mine ↦
              let more : retired_for device s.runs ≡ suc (retired_for device rest) =
                runs ∙ rw (mine, retired) refl in
              rw mine (omega (arith, more, bonds, none_of_key, l.taken device))
          | inr other ↦
              let same : retired_for device s.runs ≡ retired_for device rest =
                runs ∙ rw other refl in
              rw other (omega (arith, same, bonds, l.taken device))
        ]

    -- The bond is the only one of its device.
    pub joined_device : for_device key.device_id joined ≡ 1
    unfolding for_device retired_for
    joined_device =
        let l = v.live o in
        let mine = text_eq_refl key.device_id in
        let more : retired_for key.device_id s.runs ≡ suc (retired_for key.device_id rest) =
          Pick-retired_for key.device_id pick ∙ rw (mine, retired) refl in
        let bonds = delete_device key key.device_id s.registry.bonds in
        rw mine (omega (arith, more, bonds, none_of_key, l.taken key.device_id))

    joined-free : (asked : BondKey) → for_key asked rest + for_key asked joined ≤ 1
    unfolding for_key
    joined-free asked = elim (Bool-cases (key_eq key asked)) [
      | inl mine ↦
          let at = key_eq→≡ key asked mine in
          let gone : for_key asked (delete key s.registry.bonds) ≡ 0 =
            ap (λ (k : BondKey). for_key k (delete key s.registry.bonds)) (sym at)
            ∙ delete_key key s.registry.bonds in
          let alone : for_key asked rest ≡ 0 =
            ap (λ (k : BondKey). for_key k rest) (sym at) ∙ (one_of_key (v.live o)).1 in
          rw mine (omega (arith, gone, alone))
      | inr other ↦
          rw other (
            omega
              (arith, delete_other key asked s.registry.bonds other, left-free (v.live o) asked))
    ]

    joined-capacity : length joined + length (delete key s.registry.claims) ≤ 512
    joined-capacity = omega (
      arith,
      v.capacity,
      length-delete key s.registry.claims,
      length-delete key s.registry.bonds,
      (one_of_key (v.live o)).0,
    )

    pub stood-IsSound : IsSound stood
    stood-IsSound = record {
      one_bond = λ device. omega (arith, joined-taken device);
      one_claim = left-one_claim;
      capacity = joined-capacity;
      live = λ still.
          let l = v.live o in
          record {
            claimed = left-claimed l;
            devices = left-devices l;
            free = joined-free;
            taken = joined-taken;
          };
    }
