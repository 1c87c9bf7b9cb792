-- ===== src/BondServer/Registry.antt =====
-- The bonds of a server by device and run, and the claims of those on their way: internal/wgturn/bond.go,
-- `acquireBond` to `removeBond`. Each part of `acquireBond` that holds the lock is a function; what stands between
-- two of them is an argument. A bond is told from others, as by its pointer, by its id.
pub mod Counts
pub mod Runs
pub mod System
pub mod Enter
pub mod Leave
pub mod Retire
pub mod Outcomes
pub mod Safety
pub mod Access
mod Tests
use tamizdat.Prelude.Text.{text_eq}
use tamizdat.BondServer.Bind.{BondBind, bond_token_matches}
use tamizdat.Prelude.Bytes.{Bytes}
use tamizdat.Prelude.{
  ℕ, Bool, List, Option, none, some, ◌∷◌, [], length, leb, ◌==◌, if◌then◌else◌, ◌||◌, ◌&&◌, not,
  true, false, ◌+◌, suc,
}

-- `bondKey`.
pub record BondKey : Type 0 where
  pub device_id : Bytes
  pub run_id : Bytes

-- `serverBond`, as far as the registry reads it.
pub record ServerBond : Type 0 where
  pub id : ℕ
  pub key : BondKey
  pub token : Bytes
  pub config : Bytes

abbrev pub bond_max_runs_per_device : ℕ
bond_max_runs_per_device = 1

abbrev pub bond_max_active_and_claims : ℕ
bond_max_active_and_claims = 512

unfoldable pub key_eq : BondKey → BondKey → Bool
unfolding text_eq
key_eq a b = text_eq a.device_id b.device_id && text_eq a.run_id b.run_id

-- A Go map by keys.
abbrev pub Keyed : Type 0 → Type 0
Keyed V = List (BondKey × V)

module _ {V : Type 0} where
  unfoldable pub find : BondKey → Keyed V → Option V
  unfolding key_eq
  find key [] = none
  find key ((other, value) ∷ more) = if key_eq other key then some value else find key more

  unfoldable pub delete : BondKey → Keyed V → Keyed V
  unfolding key_eq
  delete key [] = []
  delete key ((other, value) ∷ more) =
      let rest = delete key more in if key_eq other key then rest else (other, value) ∷ rest

  -- `claimsForDevice`.
  unfoldable pub for_device : Bytes → Keyed V → ℕ
  unfolding text_eq
  for_device device [] = 0
  for_device device ((key, value) ∷ more) =
      let rest = for_device device more in if text_eq key.device_id device then suc rest else rest

-- The fields of `Server`; `closing` is the flag of each bond, by its id.
pub record Registry : Type 0 where
  pub bonds : Keyed ServerBond
  pub claims : Keyed Bytes
  pub closing : ℕ → Bool
  pub closed : Bool

-- The texts of the answers.
pub data Notice : Type 0 where
  nothing server_shutdown token_mismatch bond_device_busy bond_capacity invalid_bind : Notice
  provision_failed wg_unavailable bond_race : Notice
  denied : Bytes → Notice
  config_text : Bytes → Notice

-- The types of the answers.
pub data AnswerType : Type 0 where
  bind_wait bind_ok bind_config bind_error : AnswerType

pub record Answer : Type 0 where
  pub bond : Option ServerBond
  pub typ : AnswerType
  pub text : Notice

abbrev pub refuse : Notice → Answer
refuse text = record { bond = none; typ = bind_error; text = text }

abbrev pub wait_for : Notice → Answer
wait_for text = record { bond = none; typ = bind_wait; text = text }

unfoldable pub key_of : BondBind → BondKey
key_of bind = record { device_id = bind.device_id; run_id = bind.run_id }

-- `acquireBond` where the bond is there.
unfoldable pub join : BondBind → ServerBond → Registry → Answer
unfolding bond_token_matches
join bind bond r =
    if not (bond_token_matches bond.token bind.token)
    then refuse token_mismatch
    else if r.closing bond.id
    then wait_for bond_device_busy
    else if bind.want_config
    then record { bond = some bond; typ = bind_config; text = config_text bond.config }
    else record { bond = some bond; typ = bind_ok; text = nothing }

-- `acquireBond` where neither a bond nor a claim is there: no answer is a claim.
unfoldable pub claim : BondBind → Registry → Registry × Option Answer
unfolding key_of for_device delete
claim bind r =
    if not bind.want_config
    then (r, some (wait_for nothing))
    else if leb bond_max_active_and_claims (length r.bonds + length r.claims)
    then (r, some (refuse bond_capacity))
    else if leb bond_max_runs_per_device (for_device bind.device_id r.claims)
    then (r, some (wait_for bond_device_busy))
    else (record r { claims = (key_of bind, bind.token) ∷ delete (key_of bind) r.claims }, none)

-- `acquireBond` to its claim; `stopped` is what its check of the flag and of the context finds.
unfoldable pub acquire_claim : Bool → BondBind → Registry → Registry × Option Answer
unfolding join claim find key_of bond_token_matches
acquire_claim stopped bind r =
    if stopped then (r, some (refuse server_shutdown)) else elim (find (key_of bind) r.bonds) [
      | some bond ↦ (r, some (join bind bond r))
      | none ↦ elim (find (key_of bind) r.claims) [
        | some token ↦ (
          r,
          some (
              if not (bond_token_matches token bind.token)
              then refuse token_mismatch
              else wait_for nothing),
        )
        | none ↦ claim bind r
      ]
    ]

-- `finishBondClaim` behind its checks for the end of the server.
unfoldable pub keep_bond : BondKey → ServerBond → Registry → Registry × Option ServerBond
unfolding find delete
keep_bond key bond r = elim (find key r.bonds) [
  | some existing ↦ (r, some existing)
  | none ↦ (record r { bonds = (key, bond) ∷ delete key r.bonds }, some bond)
]

-- `finishBondClaim`.
unfoldable pub finish_bond_claim :
    BondKey → Option ServerBond → Registry → Registry × Option ServerBond
unfolding delete keep_bond
finish_bond_claim key none r = (record r { claims = delete key r.claims }, none)
finish_bond_claim key (some bond) r =
    let r' = record r { claims = delete key r.claims } in
    if r.closed then (r', none) else keep_bond key bond r'

-- `closing.Store(true)`.
unfoldable pub mark_closing : ℕ → (ℕ → Bool) → ℕ → Bool
mark_closing id flags other = other == id || flags other

-- What `retireDeviceBonds` takes out: the device's bonds but the one of the key.
abbrev pub is_retired : BondKey → BondKey → Bool
is_retired keep key = text_eq key.device_id keep.device_id && not (key_eq key keep)

unfoldable pub kept : BondKey → Keyed ServerBond → Keyed ServerBond
unfolding text_eq key_eq
kept keep [] = []
kept keep ((key, bond) ∷ more) =
    let rest = kept keep more in if is_retired keep key then rest else (key, bond) ∷ rest

unfoldable pub mark_retired : BondKey → Keyed ServerBond → (ℕ → Bool) → ℕ → Bool
unfolding mark_closing text_eq key_eq
mark_retired keep [] flags = flags
mark_retired keep ((key, bond) ∷ more) flags =
    let rest = mark_retired keep more flags in
    if is_retired keep key then mark_closing bond.id rest else rest

-- `retireDeviceBonds`.
unfoldable pub retire_device_bonds : BondKey → Registry → Registry
unfolding kept mark_retired
retire_device_bonds keep r = record r {
  bonds = kept keep r.bonds;
  closing = mark_retired keep r.bonds r.closing;
}

-- `acquireBond` behind `authenticateClient`, with its denial and what the check for an end finds: no answer goes on.
unfoldable pub acquire_authenticated :
    Option Bytes → Bool → BondBind → Registry → Registry × Option Answer
unfolding finish_bond_claim retire_device_bonds key_of
acquire_authenticated (some deny) stopped bind r =
    ((finish_bond_claim (key_of bind) none r).0, some (refuse (denied deny)))
acquire_authenticated none stopped bind r =
    if stopped
    then ((finish_bond_claim (key_of bind) none r).0, some (refuse server_shutdown))
    else (retire_device_bonds (key_of bind) r, none)

-- A failure of `acquireBond` gives the claim back.
unfoldable pub acquire_failed : Notice → BondBind → Registry → Registry × Option Answer
unfolding finish_bond_claim key_of
acquire_failed text bind r = ((finish_bond_claim (key_of bind) none r).0, some (refuse text))

-- `acquireBond` from `localPortString` to the bond's making: whether the port is read, the device is provisioned and
-- the socket is there, and whether the server or the context is found closed behind the second and the third.
unfoldable pub acquire_provisioned :
    Bool → Bool → Bool → Bool → Bool → BondBind → Registry → Registry × Option Answer
unfolding acquire_failed
acquire_provisioned port_read provisioned stopped dialled stopped_late bind r =
    if not port_read
    then acquire_failed invalid_bind bind r
    else if not provisioned
    then acquire_failed provision_failed bind r
    else if stopped
    then acquire_failed server_shutdown bind r
    else if not dialled
    then acquire_failed wg_unavailable bind r
    else if stopped_late
    then acquire_failed server_shutdown bind r
    else (r, none)

-- `bond.close()`, as the registry sees it.
unfoldable pub close_bond : ServerBond → Registry → Registry
unfolding mark_closing
close_bond bond r = record r { closing = mark_closing bond.id r.closing }

-- `acquireBond` behind its second `finishBondClaim`, with what that has given.
unfoldable pub settle : ServerBond → BondBind → Registry × Option ServerBond → Registry × Answer
unfolding close_bond bond_token_matches
settle bond bind (r, none) =
    (close_bond bond r, refuse (if r.closed then server_shutdown else bond_race))
settle bond bind (r, some winner) =
    if winner.id == bond.id
    then (r, record { bond = some bond; typ = bind_config; text = config_text bond.config })
    else if r.closed
    then (close_bond bond r, refuse server_shutdown)
    else if bond_token_matches winner.token bind.token
    then (
      close_bond bond r,
      record { bond = some winner; typ = bind_config; text = config_text winner.config },
    )
    else (close_bond bond r, refuse bond_race)

-- `acquireBond` from its second `finishBondClaim` on.
unfoldable pub acquire_commit : ServerBond → BondBind → Registry → Registry × Answer
unfolding finish_bond_claim key_of settle
acquire_commit bond bind r = settle bond bind (finish_bond_claim (key_of bind) (some bond) r)

-- `removeBond`.
unfoldable pub remove_bond : ServerBond → Registry → Registry
unfolding close_bond find delete
remove_bond bond r =
    let r' = close_bond bond r in
    elim (find bond.key r'.bonds) [
      | none ↦ r'
      | some other ↦
          if other.id == bond.id then record r' { bonds = delete bond.key r'.bonds } else r'
    ]

-- `Shutdown` to its flag, and its part under the lock.
unfoldable pub shut_flag : Registry → Registry
shut_flag r = record r { closed = true }

unfoldable pub shut_clear : Registry → Registry
shut_clear r = record r { bonds = []; claims = [] }
