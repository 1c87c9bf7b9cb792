-- ===== src/BondServer/Registry/System.antt =====
-- What holds of the registry and the calls in every interleaving.
use tamizdat.BondServer.Bind.{BondBind, bond_token_matches}
use tamizdat.BondServer.Registry.{
  BondKey, for_device, find, delete, Registry, Answer, key_of, claim, acquire_claim,
  bond_max_active_and_claims, bind_wait, bind_error, nothing, server_shutdown, bond_capacity, join,
  bond_device_busy, refuse, token_mismatch, wait_for,
}
use tamizdat.BondServer.Registry.Counts.{for_key, find-none}
use tamizdat.BondServer.Registry.Runs.{System, retired_for}
use tamizdat.Prelude.Bytes.{Bytes}
use tamizdat.Prelude.{
  Bool, Option, none, some, ◌∷◌, if◌then◌else◌, false, arith, ◌≡◌, refl, length, ◌≤◌, ◌+◌, ◌<◌, ◌⊎◌,
  Bool-cases, inr, inl, leb, Option-cases, not, sym,
}
use mathlib.Core.Path.{subst}

-- While the server is open: the claims are those of the calls, no bond stands for a call's key, and none for the
-- device of a call that has retired the older ones.
pub record IsLive (s : System) : Type 0 where
  pub claimed : (key : BondKey) → for_key key s.runs ≡ for_key key s.registry.claims
  pub devices : (device : Bytes) → for_device device s.runs ≡ for_device device s.registry.claims
  pub free : (key : BondKey) → for_key key s.runs + for_key key s.registry.bonds ≤ 1
  pub taken : (device : Bytes) → retired_for device s.runs + for_device device s.registry.bonds ≤ 1

-- One bond and one claim at most for a device, and no more of both than the server's limit.
pub record IsSound (s : System) : Type 0 where
  pub one_bond : (device : Bytes) → for_device device s.registry.bonds ≤ 1
  pub one_claim : (device : Bytes) → for_device device s.registry.claims ≤ 1
  pub capacity : length s.registry.bonds + length s.registry.claims ≤ bond_max_active_and_claims
  pub live : s.registry.closed ≡ false → IsLive s

-- A claim that is made: what was found, and the state.
pub record Claims (bind : BondBind) (r : Registry) : Type 0 where
  pub no_bond : for_key (key_of bind) r.bonds ≡ 0
  pub no_claim : for_key (key_of bind) r.claims ≡ 0
  pub room : length r.bonds + length r.claims < bond_max_active_and_claims
  pub first : for_device bind.device_id r.claims ≡ 0

abbrev pub claimed_state : BondBind → Registry → Registry
claimed_state bind r = record r {
  claims = (key_of bind, bind.token) ∷ delete (key_of bind) r.claims;
}

abbrev pub Entering : BondBind → Registry → Registry × Option Answer → Type 0
Entering bind r result =
    ((a : Answer) × (result ≡ (r, some a)))
    ⊎ (Claims bind r × (result ≡ (claimed_state bind r, none)))

claim-cases :
    (bind : BondBind) (r : Registry)
    → for_key (key_of bind) r.bonds ≡ 0
    → for_key (key_of bind) r.claims ≡ 0
    → Entering bind r (claim bind r)
unfolding claim
claim-cases bind r nb nc = elim (Bool-cases bind.want_config) [
  | inr joiner ↦ inl (record { bond = none; typ = bind_wait; text = nothing }, rw joiner refl)
  | inl wants ↦ elim (Bool-cases (leb 512 (length r.bonds + length r.claims))) [
    | inl full ↦
        inl (record { bond = none; typ = bind_error; text = bond_capacity }, rw (wants, full) refl)
    | inr room ↦ elim (Bool-cases (leb 1 (for_device bind.device_id r.claims))) [
      | inl busy ↦ inl (
        record { bond = none; typ = bind_wait; text = bond_device_busy },
        rw (wants, room, busy) refl,
      )
      | inr first ↦ inr (
        record { no_bond = nb; no_claim = nc; room = ground arith; first = ground arith },
        rw (wants, room, first) refl,
      )
    ]
  ]
]

pub acquire_claim-cases :
    (stopped : Bool) (bind : BondBind) (r : Registry)
    → Entering bind r (acquire_claim stopped bind r)
unfolding acquire_claim
acquire_claim-cases stopped bind r = elim (Bool-cases (stopped)) [
  | inl shut ↦ inl (record { bond = none; typ = bind_error; text = server_shutdown }, rw shut refl)
  | inr unclosed ↦ elim (Option-cases (find (key_of bind) r.bonds)) [
    | inr (bond, e) ↦ inl (join bind bond r, rw (unclosed, e, acquire_claim) refl)
    | inl nb ↦ elim (Option-cases (find (key_of bind) r.claims)) [
      | inr (token, e) ↦ inl (
        if not (bond_token_matches token bind.token)
            then refuse token_mismatch
            else wait_for nothing,
        rw (unclosed, nb, acquire_claim) (rw (e, acquire_claim) refl),
      )
      | inl nc ↦
          let c =
            claim-cases bind r (find-none (key_of bind) r.bonds nb)
              (find-none (key_of bind) r.claims nc) in
          let e : acquire_claim stopped bind r ≡ claim bind r =
            unfold acquire_claim in
            rw (unclosed, nb, acquire_claim) (rw (nc, acquire_claim) refl) in
          subst (Entering bind r) (sym e) c
    ]
  ]
]
