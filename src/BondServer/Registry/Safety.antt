-- ===== src/BondServer/Registry/Safety.antt =====
-- Whatever the calls, the removals and the end of the server do, and in which order, the registry stays sound.
use tamizdat.BondServer.Registry.{
  Keyed, for_device, delete, Registry, ServerBond, Answer, key_of, acquire_authenticated,
  acquire_provisioned, remove_bond, shut_flag, shut_clear, mark_closing, close_bond,
}
use tamizdat.BondServer.Registry.Counts.{
  delete_key_le, for_key, delete_device, length-delete, find-of-for_key,
}
use tamizdat.BondServer.Registry.Runs.{
  close, Pick-for_key, Pick-for_device, Pick-retired_for, retired_for, Run, System, Pick, entry,
  with_registry, authenticated, provisioned, committed, with_state, Step, enter, authenticate,
  provision, commit, remove, flag, clear, Reach, start, next, no_bonds, Pick-for_key,
  Pick-for_device, Pick-retired_for,
}
use tamizdat.BondServer.Registry.System.{IsSound}
use tamizdat.BondServer.Registry.Enter.{entered-IsSound}
use tamizdat.BondServer.Registry.Leave.{left-IsSound, stood-IsSound, none_of_key}
use tamizdat.BondServer.Registry.Retire.{retired-IsSound, fewer-IsSound}
use tamizdat.Prelude.Bytes.{Bytes}
use tamizdat.Prelude.{Bool, Option, ◌∷◌, true, arith, ◌≡◌, refl, inl, Bool-cases, inr, sym, ◌∙◌}
use mathlib.Core.Path.{subst}
use tamizdat.BondServer.Registry.Outcomes.{
  remove_bond-cases, Gives, acquire_provisioned-cases, acquire_authenticated-cases,
  committed-closed, committed-open,
}

Gives-IsSound :
    (s : System) (run later : Run) (rest : Keyed Run) (result : Registry × Option Answer)
    → IsSound s
    → Pick (entry run) rest s.runs
    → Gives s.registry run.bind result
    → IsSound (with_registry result later rest)
Gives-IsSound s run later rest result v pick (a, e) =
    subst (λ (x : Registry × Option Answer). IsSound (with_registry x later rest)) (sym e)
      (left-IsSound s v run rest s.registry.closing pick)

authenticated-IsSound :
    (s : System) (deny : Option Bytes) (stopped : Bool) (run : Run) (rest : Keyed Run)
    → IsSound s
    → Pick (entry run) rest s.runs
    → IsSound (authenticated deny stopped run rest s)
unfolding authenticated
authenticated-IsSound s deny stopped run rest v pick =
    let later : Run = record run { retired = true } in
    let result = acquire_authenticated deny stopped run.bind s.registry in
    elim (acquire_authenticated-cases deny stopped run.bind s.registry) [
      | inl g ↦ Gives-IsSound s run later rest result v pick g
      | inr e ↦
          subst (λ (x : Registry × Option Answer). IsSound (with_registry x later rest)) (sym e)
            (retired-IsSound s v run rest pick)
    ]

-- A call that goes on with nothing changed.
same_runs-IsSound :
    (s : System) (run : Run) (rest : Keyed Run)
    → IsSound s
    → Pick (entry run) rest s.runs
    → IsSound (record s { runs = entry run ∷ rest })
same_runs-IsSound s run rest v pick = record {
  one_bond = v.one_bond;
  one_claim = v.one_claim;
  capacity = v.capacity;
  live = λ o.
      let l = v.live o in
      record {
        claimed = λ key. sym (Pick-for_key key pick) ∙ l.claimed key;
        devices = λ device. sym (Pick-for_device device pick) ∙ l.devices device;
        free = λ key. omega (arith, Pick-for_key key pick, l.free key);
        taken = λ device. omega (arith, Pick-retired_for device pick, l.taken device);
      };
}

provisioned-IsSound :
    (s : System) (a b c d e : Bool) (run : Run) (rest : Keyed Run)
    → IsSound s
    → Pick (entry run) rest s.runs
    → IsSound (provisioned a b c d e run rest s)
unfolding provisioned
provisioned-IsSound s a b c d e run rest v pick =
    let result = acquire_provisioned a b c d e run.bind s.registry in
    elim (acquire_provisioned-cases a b c d e run.bind s.registry) [
      | inl g ↦ Gives-IsSound s run run rest result v pick g
      | inr same ↦
          subst (λ (x : Registry × Option Answer). IsSound (with_registry x run rest)) (sym same)
            (same_runs-IsSound s run rest v pick)
    ]

committed-IsSound :
    (s : System) (bond : ServerBond) (run : Run) (rest : Keyed Run)
    → run.retired ≡ true
    → IsSound s
    → Pick (entry run) rest s.runs
    → IsSound (committed bond run rest s)
unfolding committed
committed-IsSound s bond run rest retired v pick = elim (Bool-cases s.registry.closed) [
  | inl shut ↦
      subst (λ (x : Registry). IsSound (record { registry = x; runs = rest }))
        (sym (committed-closed bond run.bind s.registry shut))
        (left-IsSound s v run rest (mark_closing bond.id s.registry.closing) pick)
  | inr live ↦
      let flags = s.registry.closing in
      let e =
        find-of-for_key (key_of run.bind) s.registry.bonds
          (none_of_key s v run rest flags pick bond retired live) in
      subst (λ (x : Registry × Answer). IsSound (record { registry = x.0; runs = rest }))
        (sym (committed-open bond run.bind s.registry live e))
        (stood-IsSound s v run rest flags pick bond retired live)
]

-- The deletion of one bond.
removed-IsSound :
    (s : System) (bond : ServerBond)
    → IsSound s
    → IsSound (with_state (remove_bond bond s.registry) s)
removed-IsSound s bond v =
    let flags = mark_closing bond.id s.registry.closing in
    let bonds = s.registry.bonds in
    let closed = s.registry.closed in
    elim (remove_bond-cases bond s.registry) [
      | inl e ↦
          subst (λ (x : Registry). IsSound (with_state x s)) (sym e)
            (fewer-IsSound s v bonds flags closed (λ o. o) (λ device. omega arith)
              (λ key. omega arith) (omega arith))
      | inr e ↦
          subst (λ (x : Registry). IsSound (with_state x s)) (sym e)
            (fewer-IsSound s v (delete bond.key bonds) flags closed (λ o. o)
              (λ device. omega (arith, delete_device bond.key device bonds))
              (λ key. delete_key_le bond.key key bonds)
              (omega (arith, length-delete bond.key bonds)))
    ]

closing-IsSound :
    (s : System) (bond : ServerBond)
    → IsSound s
    → IsSound (with_state (close_bond bond s.registry) s)
unfolding close_bond
closing-IsSound s bond v =
    fewer-IsSound s v s.registry.bonds (mark_closing bond.id s.registry.closing) s.registry.closed
      (λ o. o) (λ device. omega arith) (λ key. omega arith) (omega arith)

flagged-IsSound : (s : System) → IsSound s → IsSound (with_state (shut_flag s.registry) s)
unfolding shut_flag
flagged-IsSound s v =
    fewer-IsSound s v s.registry.bonds s.registry.closing true (λ o. cc) (λ device. omega arith)
      (λ key. omega arith) (omega arith)

cleared-IsSound :
    (s : System)
    → s.registry.closed ≡ true
    → IsSound s
    → IsSound (with_state (shut_clear s.registry) s)
unfolding shut_clear for_device
cleared-IsSound s shut v = record {
  one_bond = λ device. omega arith;
  one_claim = λ device. omega arith;
  capacity = omega arith;
  live = λ o. cc;
}

pub Step-IsSound : {s t : System} → Step s t → IsSound s → IsSound t
Step-IsSound (enter s stopped bind) v = entered-IsSound stopped bind s v
Step-IsSound (authenticate s deny stopped run rest fresh pick) v =
    authenticated-IsSound s deny stopped run rest v pick
Step-IsSound (provision s a b c d e run rest retired pick) v =
    provisioned-IsSound s a b c d e run rest v pick
Step-IsSound (commit s bond run rest retired own pick) v =
    committed-IsSound s bond run rest retired v pick
Step-IsSound (remove s bond) v = removed-IsSound s bond v
Step-IsSound (close s bond) v = closing-IsSound s bond v
Step-IsSound (flag s) v = flagged-IsSound s v
Step-IsSound (clear s shut) v = cleared-IsSound s shut v

no_bonds-IsSound : IsSound no_bonds
unfolding no_bonds for_device for_key retired_for
no_bonds-IsSound = record {
  one_bond = λ device. omega arith;
  one_claim = λ device. omega arith;
  capacity = omega arith;
  live = λ o. record {
    claimed = λ key. refl;
    devices = λ device. refl;
    free = λ key. omega arith;
    taken = λ device. omega arith;
  };
}

-- From an empty registry, whatever calls of `acquireBond` enter, authenticate, fail and commit in any interleaving,
-- with bonds closed and removed at any time and the server closed at any time: a device has one bond at most and one claim at
-- most, and there are no more than 512 of both. While the server is open, each claim is that of one call under way,
-- no bond stands for the key of such a call, and none for the device of a call that has retired the older ones.
pub Reach-IsSound : {t : System} → Reach no_bonds t → IsSound t
Reach-IsSound start = no_bonds-IsSound
Reach-IsSound (next r st) = Step-IsSound st (Reach-IsSound r)
