-- ===== src/BondServer/Registry/Enter.antt =====
-- A claim that is made keeps the registry sound.
use tamizdat.Prelude.Text.{text_eq, text_eq→≡}
use tamizdat.BondServer.Bind.{BondBind}
use tamizdat.BondServer.Registry.{
  BondKey, key_eq, Keyed, for_device, delete, Registry, Answer, key_of,
}
use tamizdat.BondServer.Registry.Counts.{
  for_key, key_eq→≡, delete_key, delete_other, delete_device, length-delete,
}
use tamizdat.BondServer.Registry.Runs.{Run, System, retired_for, with_registry, entered}
use tamizdat.BondServer.Registry.System.{
  IsLive, IsSound, Claims, claimed_state, acquire_claim-cases,
}
use tamizdat.Prelude.Bytes.{Bytes}
use tamizdat.Prelude.{
  Bool, Option, ◌∷◌, false, arith, ◌≡◌, ◌≤◌, ◌+◌, Bool-cases, inl, ap, ◌∙◌, sym, inr,
}
use mathlib.Core.Path.{subst}

-- The other devices' claims, and those of the device, behind a deletion of a key without an entry.
delete_missing :
    {V : Type 0} (key : BondKey) (device : Bytes) (m : Keyed V)
    → for_key key m ≡ 0
    → for_device device (delete key m) ≡ for_device device m
delete_missing key device m e = ground (arith, delete_device key device m)

module _ (s : System) (v : IsSound s) (bind : BondBind) (c : Claims bind s.registry) where
  abbrev fresh : System
  fresh = record {
    registry = claimed_state bind s.registry;
    runs = (key_of bind, record { bind = bind; retired = false }) ∷ s.runs;
  }

  fresh-one_claim : (device : Bytes) → for_device device fresh.registry.claims ≤ 1
  unfolding for_device key_of
  fresh-one_claim device =
      let same = delete_missing (key_of bind) device s.registry.claims c.no_claim in
      elim (Bool-cases (text_eq bind.device_id device)) [
        | inl mine ↦
            let none_yet : for_device device s.registry.claims ≡ 0 =
              ap (λ (d : Bytes). for_device d s.registry.claims)
                (sym (text_eq→≡ bind.device_id device mine))
              ∙ c.first in
            rw mine (omega (arith, same, none_yet))
        | inr other ↦ rw other (omega (arith, same, v.one_claim device))
      ]

  fresh-claimed :
      (l : IsLive s) (key : BondKey) → for_key key fresh.runs ≡ for_key key fresh.registry.claims
  unfolding for_key
  fresh-claimed l key = elim (Bool-cases (key_eq (key_of bind) key)) [
    | inl mine ↦
        let at = key_eq→≡ (key_of bind) key mine in
        let before : for_key key s.runs ≡ 0 =
          l.claimed key ∙ ap (λ (k : BondKey). for_key k s.registry.claims) (sym at) ∙ c.no_claim in
        let behind : for_key key (delete (key_of bind) s.registry.claims) ≡ 0 =
          ap (λ (k : BondKey). for_key k (delete (key_of bind) s.registry.claims)) (sym at)
          ∙ delete_key (key_of bind) s.registry.claims in
        rw mine (omega (arith, before, behind))
    | inr other ↦
        rw other
          (omega (arith, l.claimed key, delete_other (key_of bind) key s.registry.claims other))
  ]

  fresh-devices :
      (l : IsLive s) (device : Bytes)
      → for_device device fresh.runs ≡ for_device device fresh.registry.claims
  unfolding for_device key_of
  fresh-devices l device =
      let same = delete_missing (key_of bind) device s.registry.claims c.no_claim in
      ground (arith, same, l.devices device)

  fresh-free :
      (l : IsLive s) (key : BondKey) → for_key key fresh.runs + for_key key s.registry.bonds ≤ 1
  unfolding for_key
  fresh-free l key = elim (Bool-cases (key_eq (key_of bind) key)) [
    | inl mine ↦
        let at = key_eq→≡ (key_of bind) key mine in
        let before : for_key key s.runs ≡ 0 =
          l.claimed key ∙ ap (λ (k : BondKey). for_key k s.registry.claims) (sym at) ∙ c.no_claim in
        let bonds : for_key key s.registry.bonds ≡ 0 =
          ap (λ (k : BondKey). for_key k s.registry.bonds) (sym at) ∙ c.no_bond in
        rw mine (omega (arith, before, bonds))
    | inr other ↦ rw other (l.free key)
  ]

  fresh-taken :
      (l : IsLive s) (device : Bytes)
      → retired_for device fresh.runs + for_device device s.registry.bonds ≤ 1
  unfolding retired_for
  fresh-taken l device = ground (arith, l.taken device)

  fresh-IsSound : IsSound fresh
  fresh-IsSound = record {
    one_bond = v.one_bond;
    one_claim = fresh-one_claim;
    capacity = omega (arith, c.room, length-delete (key_of bind) s.registry.claims);
    live = λ o.
        let l = v.live o in
        record {
          claimed = fresh-claimed l;
          devices = fresh-devices l;
          free = fresh-free l;
          taken = fresh-taken l;
        };
  }

pub entered-IsSound :
    (stopped : Bool) (bind : BondBind) (s : System) → IsSound s → IsSound (entered stopped bind s)
unfolding entered
entered-IsSound stopped bind s v =
    let run : Run = record { bind = bind; retired = false } in
    elim (acquire_claim-cases stopped bind s.registry) [
      | inl (a, e) ↦
          subst (λ (x : Registry × Option Answer). IsSound (with_registry x run s.runs)) (sym e) v
      | inr (c, e) ↦
          subst (λ (x : Registry × Option Answer). IsSound (with_registry x run s.runs)) (sym e)
            (fresh-IsSound s v bind c)
    ]
