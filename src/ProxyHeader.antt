-- ===== src/ProxyHeader.antt =====
-- The headers of the PROXY protocol: internal/proxyproto/proxyproto.go, `ReadHeader`, `readV2` and `readV1`.
-- A connection is the bytes that are still to come from it, behind which a read fails; the buffered reader that is
-- handed back is the bytes that are left. strings.Fields and net.ParseIP are arguments.
pub mod Consumed
pub mod Printed
mod Tests
use tamizdat.Prelude.Options.{◌>>=◌}
use tamizdat.Prelude.Bytes.{Bytes, from_be}
use tamizdat.Prelude.{
  ℕ, Bool, List, Option, none, some, ◌∷◌, [], length, take, drop, get_or, ltb, leb, ◌==◌,
  if◌then◌else◌, not, ◌&&◌, ◌||◌, ◌/◌, ◌%◌, ◌+◌, ◌*◌, ◌-◌, suc, true, false, zero,
}
use tamizdat.Prelude.Text.{text_eq, starts_with}

abbrev pub v2_signature : Bytes
v2_signature =
    0x0d ∷ 0x0a ∷ 0x0d ∷ 0x0a ∷ 0x00 ∷ 0x0d ∷ 0x0a ∷ 0x51 ∷ 0x55 ∷ 0x49 ∷ 0x54 ∷ 0x0a ∷ []

-- "PROXY ".
abbrev pub v1_prefix : Bytes
v1_prefix = 80 ∷ 82 ∷ 79 ∷ 88 ∷ 89 ∷ 32 ∷ []

abbrev pub max_header_size : ℕ
max_header_size = 536

-- net.TCPAddr.
pub record TcpAddr : Type 0 where
  pub ip : Bytes
  pub port : ℕ

-- The result of a read: the address of the client, or none, with the bytes left; or an error.
pub data Header : Type 0 where
  found : Option TcpAddr → Bytes → Header
  not_proxy : Bytes → Header
  malformed : Header
  peek_failed : Header

-- The `switch` of `readV2` on the family.
pub addr_of : ℕ → Bytes → Bytes → Header
addr_of family block rest =
    if family == 1
    then (if ltb (length block) 12
        then malformed
        else found (some (record { ip = take 4 block; port = from_be (take 2 (drop 8 block)) }))
            rest)
    else if family == 2
    then (if ltb (length block) 36
        then malformed
        else found (some (record { ip = take 16 block; port = from_be (take 2 (drop 32 block)) }))
            rest)
    else if family == 3
    then found none rest
    else malformed

-- `readV2` behind the check of the version, of a header that is there.
pub read_block : ℕ → ℕ → Bytes → Header
unfolding addr_of
read_block cmd fam_proto conn =
    let family = fam_proto / 16 in
    let addr_len = from_be (take 2 (drop 14 conn)) in
    let body = drop 16 conn in
    if cmd == 1 && ((family == 1 || family == 2) && not (fam_proto % 16 == 1))
    then malformed
    else if ltb (max_header_size - 16) addr_len
    then malformed
    else if ltb (length body) addr_len
    then malformed
    else if cmd == 0 || family == 0
    then found none (drop addr_len body)
    else if not (cmd == 1)
    then malformed
    else addr_of family (take addr_len body) (drop addr_len body)

-- `readV2`.
pub read_v2 : Bytes → Header
unfolding read_block
read_v2 conn =
    let version_cmd = get_or conn 12 0 in
    if ltb (length conn) 16
    then malformed
    else if not (version_cmd / 16 == 2)
    then malformed
    else read_block (version_cmd % 16) (get_or conn 13 0) conn

-- `ReadSlice` of a buffer with `room` bytes: the length of the line, with its newline.
pub line_length : ℕ → Bytes → Option ℕ
line_length zero conn = none
line_length (suc room) [] = none
line_length (suc room) (b ∷ conn) =
    if b == 10 then some 1 else elim (line_length room conn) [ none ↦ none | some n ↦ some (suc n) ]

-- The text before a carriage return and a newline at the end.
pub trim_crlf : Bytes → Option Bytes
trim_crlf [] = none
trim_crlf (b ∷ []) = none
trim_crlf (b ∷ c ∷ more) =
    if length more == 0
    then (if b == 13 && c == 10 then some [] else none)
    else elim (trim_crlf (c ∷ more)) [ none ↦ none | some t ↦ some (b ∷ t) ]

-- strconv.ParseUint with base 10 and 16 bits, from the digits so far.
pub parse_digits : ℕ → Bytes → Option ℕ
parse_digits acc [] = if ltb 65535 acc then none else some acc
parse_digits acc (b ∷ more) =
    let rest = parse_digits (acc * 10 + (b - 48)) more in
    if leb 48 b && leb b 57 then rest else none

pub parse_uint : Bytes → Option ℕ
unfolding parse_digits
parse_uint s = if length s == 0 then none else parse_digits 0 s

-- net.IP.To4.
pub to4 : Bytes → Option Bytes
unfolding text_eq
to4 ip =
    if length ip == 4
    then some ip
    else if length ip == 16
        && text_eq (take 12 ip) (0 ∷ 0 ∷ 0 ∷ 0 ∷ 0 ∷ 0 ∷ 0 ∷ 0 ∷ 0 ∷ 0 ∷ 0xff ∷ 0xff ∷ [])
    then some (drop 12 ip)
    else none

-- "UNKNOWN", "TCP4" and "TCP6".
abbrev pub unknown_proto : Bytes
unknown_proto = 85 ∷ 78 ∷ 75 ∷ 78 ∷ 79 ∷ 87 ∷ 78 ∷ []

abbrev pub tcp4_proto : Bytes
tcp4_proto = 84 ∷ 67 ∷ 80 ∷ 52 ∷ []

abbrev pub tcp6_proto : Bytes
tcp6_proto = 84 ∷ 67 ∷ 80 ∷ 54 ∷ []

module _ (fields : Bytes → List Bytes) (parse_ip : Bytes → Option Bytes) where
  -- `readV1` from the parse of the addresses on: the address of the client.
  pub source_of : Bool → Bytes → Bytes → Bytes → Bytes → Option TcpAddr
  unfolding parse_uint to4
  source_of is_tcp4 src dst src_port dst_port = do
    src_ip ← parse_ip src
    dst_ip ← parse_ip dst
    port ← parse_uint src_port
    _ ← parse_uint dst_port
    ip ← if is_tcp4 then to4 src_ip else some src_ip
    _ ← if is_tcp4 then to4 dst_ip else some dst_ip
    some (record { ip = ip; port = port })

  -- `readV1` on the fields behind the protocol, which must be four.
  pub read_addresses : Bool → List Bytes → Bytes → Header
  unfolding source_of
  read_addresses is_tcp4 (src ∷ dst ∷ src_port ∷ dst_port ∷ []) rest =
      elim (source_of is_tcp4 src dst src_port dst_port) [
        | none ↦ malformed
        | some a ↦ found (some a) rest
      ]
  read_addresses is_tcp4 more rest = malformed

  -- `readV1` on the fields of the line.
  pub read_fields : List Bytes → Bytes → Header
  unfolding read_addresses text_eq
  read_fields [] rest = malformed
  read_fields (proto ∷ more) rest =
      if text_eq proto unknown_proto
      then found none rest
      else if not (text_eq proto tcp4_proto) && not (text_eq proto tcp6_proto)
      then malformed
      else read_addresses (text_eq proto tcp4_proto) more rest

  -- `readV1`.
  pub read_v1 : Bytes → Header
  unfolding line_length trim_crlf read_fields starts_with
  read_v1 conn = elim (line_length max_header_size conn) [
    | none ↦ malformed
    | some n ↦ elim (trim_crlf (take n conn)) [
      | none ↦ malformed
      | some line ↦
          if not (starts_with v1_prefix line)
          then malformed
          else read_fields (fields (drop (length v1_prefix) line)) (drop n conn)
    ]
  ]

  -- `ReadHeader`.
  pub read_header : Bytes → Header
  unfolding read_v1 read_v2 text_eq starts_with
  read_header conn =
      let sig = take 12 conn in
      if ltb (length conn) (length v2_signature)
      then peek_failed
      else if text_eq sig v2_signature
      then read_v2 conn
      else if starts_with v1_prefix sig
      then read_v1 conn
      else not_proxy conn
