-- ===== src/BondServer/Registry/Runs.antt =====
-- The calls of `acquireBond` that are under way in any interleaving, with the registry that they share.
use tamizdat.Prelude.Text.{text_eq}
use tamizdat.BondServer.Bind.{BondBind}
use tamizdat.BondServer.Registry.{
  BondKey, Keyed, for_device, Registry, ServerBond, Answer, key_of, acquire_claim,
  acquire_authenticated, acquire_provisioned, acquire_commit, remove_bond, shut_flag, shut_clear,
  close_bond,
}
use tamizdat.BondServer.Registry.Counts.{for_key}
use tamizdat.Prelude.Bytes.{Bytes}
use tamizdat.Prelude.{
  ℕ, Bool, List, Option, none, some, ◌∷◌, [], if◌then◌else◌, ◌&&◌, true, false, suc, arith, ◌≡◌,
  refl, ◌≤◌,
}

-- A call that holds a claim; `retired` is set behind `retireDeviceBonds`.
pub record Run : Type 0 where
  pub bind : BondBind
  pub retired : Bool

pub record System : Type 0 where
  pub registry : Registry
  pub runs : Keyed Run

-- One of a list, and the others.
pub data Pick {A : Type 0} (x : A) : List A → List A → Type 0 where
  here : {xs : List A} → Pick x xs (x ∷ xs)
  there : {y : A} {xs ys : List A} → Pick x xs ys → Pick x (y ∷ xs) (y ∷ ys)

abbrev pub entry : Run → BondKey × Run
entry run = (key_of run.bind, run)

-- A call without an answer goes on.
abbrev pub resume : Option Answer → Run → Keyed Run → Keyed Run
resume none run rest = entry run ∷ rest
resume (some a) run rest = rest

abbrev pub with_registry : Registry × Option Answer → Run → Keyed Run → System
with_registry result run rest = record { registry = result.0; runs = resume result.1 run rest }

unfoldable pub entered : Bool → BondBind → System → System
unfolding acquire_claim key_of
entered stopped bind s =
    with_registry (acquire_claim stopped bind s.registry) (record { bind = bind; retired = false })
      s.runs

unfoldable pub authenticated : Option Bytes → Bool → Run → Keyed Run → System → System
unfolding acquire_authenticated key_of
authenticated deny stopped run rest s =
    with_registry (acquire_authenticated deny stopped run.bind s.registry)
      (record run { retired = true }) rest

unfoldable pub provisioned : Bool → Bool → Bool → Bool → Bool → Run → Keyed Run → System → System
unfolding acquire_provisioned key_of
provisioned port_read device stopped dialled stopped_late run rest s =
    with_registry
      (acquire_provisioned port_read device stopped dialled stopped_late run.bind s.registry) run
      rest

unfoldable pub committed : ServerBond → Run → Keyed Run → System → System
unfolding acquire_commit
committed bond run rest s = record {
  registry = (acquire_commit bond run.bind s.registry).0;
  runs = rest;
}

abbrev pub with_state : Registry → System → System
with_state r s = record s { registry = r }

-- The sections of all calls in any order, with the end and the removal of a bond at any time and the end of the server.
pub data Step : System → System → Type 0 where
  enter : (s : System) (stopped : Bool) (bind : BondBind) → Step s (entered stopped bind s)
  authenticate :
      (s : System) (deny : Option Bytes) (stopped : Bool) (run : Run) (rest : Keyed Run)
      → run.retired ≡ false
      → Pick (entry run) rest s.runs
      → Step s (authenticated deny stopped run rest s)
  provision :
      (s : System) (port_read device stopped dialled stopped_late : Bool) (run : Run)
      (rest : Keyed Run)
      → run.retired ≡ true
      → Pick (entry run) rest s.runs
      → Step s (provisioned port_read device stopped dialled stopped_late run rest s)
  commit :
      (s : System) (bond : ServerBond) (run : Run) (rest : Keyed Run)
      → run.retired ≡ true
      → bond.key ≡ key_of run.bind
      → Pick (entry run) rest s.runs
      → Step s (committed bond run rest s)
  remove : (s : System) (bond : ServerBond) → Step s (with_state (remove_bond bond s.registry) s)
  close : (s : System) (bond : ServerBond) → Step s (with_state (close_bond bond s.registry) s)
  flag : (s : System) → Step s (with_state (shut_flag s.registry) s)
  clear : (s : System) → s.registry.closed ≡ true → Step s (with_state (shut_clear s.registry) s)

pub data Reach (s : System) : System → Type 0 where
  start : Reach s s
  next : {t u : System} → Reach s t → Step t u → Reach s u

unfoldable pub no_bonds : System
no_bonds = record {
  registry = record { bonds = []; claims = []; closing = λ id. false; closed = false };
  runs = [];
}

-- The calls for a device that have retired the older bonds.
unfoldable pub retired_for : Bytes → Keyed Run → ℕ
unfolding text_eq
retired_for device [] = 0
retired_for device ((key, run) ∷ more) =
    let rest = retired_for device more in
    if text_eq key.device_id device && run.retired then suc rest else rest

pub Pick-for_key :
    (key : BondKey) {x : BondKey × Run} {rest m : Keyed Run}
    → Pick x rest m
    → for_key key m ≡ for_key key (x ∷ rest)
unfolding for_key
Pick-for_key key here = refl
Pick-for_key key (there p) = ground (arith, Pick-for_key key p)

pub Pick-for_device :
    (device : Bytes) {x : BondKey × Run} {rest m : Keyed Run}
    → Pick x rest m
    → for_device device m ≡ for_device device (x ∷ rest)
unfolding for_device
Pick-for_device device here = refl
Pick-for_device device (there p) = ground (arith, Pick-for_device device p)

pub Pick-retired_for :
    (device : Bytes) {x : BondKey × Run} {rest m : Keyed Run}
    → Pick x rest m
    → retired_for device m ≡ retired_for device (x ∷ rest)
unfolding retired_for
Pick-retired_for device here = refl
Pick-retired_for device (there p) = ground (arith, Pick-retired_for device p)

pub retired_for-le : (device : Bytes) (m : Keyed Run) → retired_for device m ≤ for_device device m
unfolding retired_for for_device
retired_for-le device [] = omega arith
retired_for-le device ((key, run) ∷ more) = ground (arith, retired_for-le device more)
