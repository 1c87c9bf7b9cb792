-- ===== src/BondServer/Bind.antt =====
-- What a worker asks for: `bondBind` of internal/wgturn/bond.go, from its parse on. encoding/json and strconv are
-- the record `Json`.
pub mod Accepted
mod Tests
use tamizdat.Prelude.Text.{text_eq}
use tamizdat.Prelude.Bytes.{Bytes}
use tamizdat.Prelude.{
  ℕ, Bool, Option, none, some, Result, ok, err, length, ltb, ◌==◌, if◌then◌else◌, ◌||◌, ◌&&◌, not,
  true, false, ◌+◌,
}

-- `negsuc n` is -(n + 1).
pub data ℤ : Type 0 where
  pos : ℕ → ℤ
  negsuc : ℕ → ℤ

-- The order of `int` against a natural number.
unfoldable pub below : ℤ → ℕ → Bool
below (pos n) k = ltb n k
below (negsuc n) k = true

-- `bondBind`. The raw bytes of local_port are read by `local_port_string`.
pub record BondBind : Type 0 where
  pub device_id : Bytes
  pub run_id : Bytes
  pub token : Bytes
  pub room : ℤ
  pub worker : ℤ
  pub local_port : Bytes
  pub want_config : Bool
  pub password : Bytes

-- json.Unmarshal into a `bondBind`, an int and a string; strconv.Atoi and strconv.Itoa.
pub record Json : Type 0 where
  pub bind : Bytes → Option BondBind
  pub int : Bytes → Option ℤ
  pub text : Bytes → Option Bytes
  pub atoi : Bytes → Option ℤ
  pub itoa : ℤ → Bytes

-- The errors of `parseBondBind`, one for each message.
pub data BindError : Type 0 where
  bad_size bad_json bad_identity bad_slot no_port bad_port joiner_password : BindError

abbrev pub bond_max_bind_payload : ℕ
bond_max_bind_payload = 4096

abbrev pub bond_max_rooms : ℕ
bond_max_rooms = 6

abbrev pub bond_max_workers : ℕ
bond_max_workers = 120

-- The end of `localPortString`.
unfoldable pub port_text : Json → ℤ → Result BindError Bytes
unfolding below
port_text json port =
    if below port 1 || not (below port 65536) then err bad_port else ok (json.itoa port)

-- `localPortString` behind a number that does not parse.
unfoldable pub port_of_text : Json → Bytes → Result BindError Bytes
unfolding port_text
port_of_text json raw = elim (json.text raw) [
  | none ↦ err bad_port
  | some t ↦ elim (json.atoi t) [ none ↦ err bad_port | some port ↦ port_text json port ]
]

-- `localPortString`.
unfoldable pub local_port_string : Json → BondBind → Result BindError Bytes
unfolding port_text port_of_text
local_port_string json b =
    if length b.local_port == 0 then err no_port else elim (json.int b.local_port) [
      | none ↦ port_of_text json b.local_port
      | some port ↦ port_text json port
    ]

-- The checks of `parseBondBind` behind the parse.
unfoldable pub check_bind : Json → BondBind → Result BindError BondBind
unfolding below local_port_string
check_bind json b =
    if length b.device_id == 0
      || ltb 256 (length b.device_id)
      || ltb (length b.run_id) 16
      || ltb 128 (length b.run_id)
      || ltb (length b.token) 32
      || ltb 256 (length b.token)
    then err bad_identity
    else if below b.room 0
        || not (below b.room bond_max_rooms)
        || below b.worker 1
        || not (below b.worker (bond_max_workers + 1))
    then err bad_slot
    else elim (local_port_string json b) [
      | err e ↦ err e
      | ok port ↦
          if not b.want_config && not (length b.password == 0) then err joiner_password else ok b
    ]

-- `parseBondBind`.
unfoldable pub parse_bond_bind : Json → Bytes → Result BindError BondBind
unfolding check_bind
parse_bond_bind json payload =
    if length payload == 0 || ltb bond_max_bind_payload (length payload)
    then err bad_size
    else elim (json.bind payload) [ none ↦ err bad_json | some b ↦ check_bind json b ]

abbrev pub same_int : ℤ → ℤ → Bool
same_int (pos m) (pos n) = m == n
same_int (negsuc m) (negsuc n) = m == n
same_int (pos m) (negsuc n) = false
same_int (negsuc m) (pos n) = false

abbrev pub same_flag : Bool → Bool → Bool
same_flag true b = b
same_flag false b = not b

abbrev same_port : Result BindError Bytes → Result BindError Bytes → Bool
same_port (ok p) (ok q) = text_eq p q
same_port (ok p) (err e) = false
same_port (err e) q = false

-- `bondTokenMatches`: subtle.ConstantTimeCompare is equality of the bytes.
unfoldable pub bond_token_matches : Bytes → Bytes → Bool
unfolding text_eq
bond_token_matches a b = length a == length b && text_eq a b

-- `sameBondBindAttempt`.
unfoldable pub same_bond_bind_attempt : Json → BondBind → BondBind → Bool
unfolding text_eq bond_token_matches local_port_string
same_bond_bind_attempt json a b =
    if not (text_eq a.device_id b.device_id)
      || not (text_eq a.run_id b.run_id)
      || not (bond_token_matches a.token b.token)
      || not (same_int a.room b.room)
      || not (same_int a.worker b.worker)
      || not (same_flag a.want_config b.want_config)
      || not (text_eq a.password b.password)
    then false
    else same_port (local_port_string json a) (local_port_string json b)
