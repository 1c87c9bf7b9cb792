-- ===== src/BondServer/Registry/Outcomes.antt =====
-- How each section of `acquireBond` behind its claim can end.
use tamizdat.BondServer.Bind.{BondBind}
use tamizdat.BondServer.Registry.{
  keep_bond, keep_bond, BondKey, find, delete, Registry, ServerBond, Answer, key_of,
  acquire_authenticated, acquire_provisioned, acquire_failed, acquire_commit, finish_bond_claim,
  close_bond, remove_bond, mark_closing, Notice, bind_config, refuse, retire_device_bonds,
  config_text, invalid_bind, denied, provision_failed, server_shutdown, wg_unavailable, settle,
}
use tamizdat.Prelude.Bytes.{Bytes}
use tamizdat.Prelude.{
  Bool, Option, none, some, ◌∷◌, if◌then◌else◌, true, false, ◌≡◌, refl, ==_refl, ◌⊎◌, inl,
  Bool-cases, inr, ap, ◌∙◌, Option-cases, ◌==◌,
}

-- How a section ends: the claim is given back, or the call goes on.
abbrev pub Gives : Registry → BondBind → Registry × Option Answer → Type 0
Gives r bind result =
    (a : Answer) × (result ≡ (record r { claims = delete (key_of bind) r.claims }, some a))

acquire_failed-Gives :
    (text : Notice) (bind : BondBind) (r : Registry) → Gives r bind (acquire_failed text bind r)
unfolding acquire_failed
acquire_failed-Gives text bind r = (refuse text, refl)

pub acquire_provisioned-cases :
    (a b c d e : Bool) (bind : BondBind) (r : Registry)
    → Gives r bind (acquire_provisioned a b c d e bind r)
      ⊎ (acquire_provisioned a b c d e bind r ≡ (r, none))
unfolding acquire_provisioned
acquire_provisioned-cases false b c d e bind r = inl (acquire_failed-Gives invalid_bind bind r)
acquire_provisioned-cases true false c d e bind r =
    inl (acquire_failed-Gives provision_failed bind r)
acquire_provisioned-cases true true true d e bind r =
    inl (acquire_failed-Gives server_shutdown bind r)
acquire_provisioned-cases true true false false e bind r =
    inl (acquire_failed-Gives wg_unavailable bind r)
acquire_provisioned-cases true true false true true bind r =
    inl (acquire_failed-Gives server_shutdown bind r)
acquire_provisioned-cases true true false true false bind r = inr refl

pub acquire_authenticated-cases :
    (deny : Option Bytes) (stopped : Bool) (bind : BondBind) (r : Registry)
    → Gives r bind (acquire_authenticated deny stopped bind r)
      ⊎ (acquire_authenticated deny stopped bind r ≡ (retire_device_bonds (key_of bind) r, none))
unfolding acquire_authenticated finish_bond_claim
acquire_authenticated-cases (some text) stopped bind r = inl (refuse (denied text), refl)
acquire_authenticated-cases none stopped bind r = elim (Bool-cases (stopped)) [
  | inl shut ↦ inl (refuse server_shutdown, rw shut refl)
  | inr live ↦ inr (rw live refl)
]

finish-closed :
    (key : BondKey) (bond : ServerBond) (r : Registry)
    → r.closed ≡ true
    → finish_bond_claim key (some bond) r ≡ (record r { claims = delete key r.claims }, none)
unfolding finish_bond_claim
finish-closed key bond r shut = rw shut refl

if_false {ℓ} : {A : Type ℓ} (b : Bool) (x y : A) → b ≡ false → (if b then x else y) ≡ y
if_false b x y e = rw e refl

keep_bond-eq :
    (key : BondKey) (bond : ServerBond) (r : Registry)
    → find key r.bonds ≡ none
    → keep_bond key bond r ≡ (record r { bonds = (key, bond) ∷ delete key r.bonds }, some bond)
unfolding keep_bond
keep_bond-eq key bond r e = rw (e, keep_bond) refl

pub finish-open :
    (key : BondKey) (bond : ServerBond) (r : Registry)
    → r.closed ≡ false
    → find key r.bonds ≡ none
    → finish_bond_claim key (some bond) r ≡ (
      record r { claims = delete key r.claims; bonds = (key, bond) ∷ delete key r.bonds },
      some bond,
    )
unfolding finish_bond_claim
finish-open key bond r live e =
    let r' : Registry = record r { claims = delete key r.claims } in
    if_false r.closed (r', none) (keep_bond key bond r') live ∙ keep_bond-eq key bond r' e

pub committed-closed :
    (bond : ServerBond) (bind : BondBind) (r : Registry)
    → r.closed ≡ true
    → (acquire_commit bond bind r).0 ≡ record r {
      claims = delete (key_of bind) r.claims;
      closing = mark_closing bond.id r.closing;
    }
unfolding acquire_commit settle close_bond
committed-closed bond bind r shut =
    ap (λ (x : Registry × Option ServerBond). (settle bond bind x).0)
      (finish-closed (key_of bind) bond r shut)

pub committed-open :
    (bond : ServerBond) (bind : BondBind) (r : Registry)
    → r.closed ≡ false
    → find (key_of bind) r.bonds ≡ none
    → acquire_commit bond bind r ≡ (
      record r {
        claims = delete (key_of bind) r.claims;
        bonds = (key_of bind, bond) ∷ delete (key_of bind) r.bonds;
      },
      record { bond = some bond; typ = bind_config; text = config_text bond.config },
    )
unfolding acquire_commit settle
committed-open bond bind r live e =
    ap (settle bond bind) (finish-open (key_of bind) bond r live e) ∙ rw (==_refl bond.id) refl

pub remove_bond-cases :
    (bond : ServerBond) (r : Registry)
    → (remove_bond bond r ≡ record r { closing = mark_closing bond.id r.closing })
      ⊎ (remove_bond bond r
          ≡ record r { closing = mark_closing bond.id r.closing; bonds = delete bond.key r.bonds })
unfolding remove_bond close_bond
remove_bond-cases bond r = elim (Option-cases (find bond.key r.bonds)) [
  | inl e ↦ inl (rw (e, remove_bond) refl)
  | inr (other, e) ↦ elim (Bool-cases (other.id == bond.id)) [
    | inl own ↦ inr (rw (e, remove_bond) (rw own refl))
    | inr foreign ↦ inl (rw (e, remove_bond) (rw foreign refl))
  ]
]
