-- ===== src/Sniff.antt =====
-- The TLS sniffer: internal/sniff/tls.go. Every index and slice expression of the source is checked
-- here, and one that is out of range, where Go panics, is a fault; so is a loop out of fuel.
-- `lower_trim` is `strings.ToLower(strings.TrimSpace(·))` of the standard library, on bytes.
pub mod Reading
pub mod Safe
mod Tests
use tamizdat.Sniff.Reading.{Outcome, found, missing, fault, ◌>>=◌, ◌>>◌, byte_at, slice, reject_if}
use tamizdat.Prelude.Bytes.{Bytes, from_be}
use tamizdat.Prelude.{
  ℕ, ltb, if◌then◌else◌, ◌+◌, suc, length, ◌||◌, leb, ◌-◌, ◌==◌, min, not, zero, drop,
}

-- A block behind a length of `width` bytes: its end, or a refusal.
skip_block : Bytes → ℕ → ℕ → Outcome ℕ
skip_block hello width p = do
  reject_if (ltb (length hello) (p + width))
  len_bytes ← slice hello p (p + width)
  let stop = p + width + from_be len_bytes
  reject_if (ltb (length hello) stop)
  found stop

-- `recordLen`, with what it becomes for a truncated record.
pub record_len : ℕ → ℕ → ℕ
record_len declared size = if ltb declared 4 || ltb size (5 + declared) then size - 5 else declared

module _ (lower_trim : Bytes → Bytes) where
  -- The end of `parseSNI`'s loop body: the host name, if it is not empty.
  host_name : Bytes → Outcome Bytes
  host_name name = if length (lower_trim name) == 0 then missing else found (lower_trim name)

  -- The body of `parseSNI`'s loop; `next` is the next round.
  sni_round : (ℕ → Outcome Bytes) → Bytes → ℕ → Outcome Bytes
  unfolding host_name
  sni_round next names p = do
    name_type ← byte_at names p
    len_bytes ← slice names (p + 1) (p + 3)
    let stop = p + 3 + from_be len_bytes
    reject_if (ltb (length names) stop)
    name ← slice names (p + 3) stop
    if name_type == 0 then host_name name else next stop

  -- The loop of `parseSNI`; each round moves `p` on by 3 at least.
  sni_entries : ℕ → Bytes → ℕ → Outcome Bytes
  unfolding sni_round
  sni_entries zero names p = fault
  sni_entries (suc fuel) names p =
      if leb (p + 3) (length names) then sni_round (sni_entries fuel names) names p else missing

  -- `parseSNI`.
  pub parse_sni : Bytes → Outcome Bytes
  unfolding sni_entries
  parse_sni ext = do
    reject_if (ltb (length ext) 2)
    len_bytes ← slice ext 0 2
    let list_end = from_be len_bytes + 2
    reject_if (ltb (length ext) list_end)
    names ← slice ext 2 list_end
    sni_entries (suc (length names)) names 0

  -- The body of the loop over the extension blocks up to `ext_end`.
  extension_round : (ℕ → Outcome Bytes) → Bytes → ℕ → ℕ → Outcome Bytes
  unfolding parse_sni
  extension_round next hello ext_end p = do
    type_bytes ← slice hello p (p + 2)
    len_bytes ← slice hello (p + 2) (p + 4)
    let stop = p + 4 + from_be len_bytes
    reject_if (ltb ext_end stop)
    ext ← slice hello (p + 4) stop
    if from_be type_bytes == 0 then parse_sni ext else next stop

  -- That loop; each round moves `p` on by 4 at least.
  pub extensions : ℕ → Bytes → ℕ → ℕ → Outcome Bytes
  unfolding extension_round
  extensions zero hello ext_end p = fault
  extensions (suc fuel) hello ext_end p =
      if leb (p + 4) ext_end
      then extension_round (extensions fuel hello ext_end) hello ext_end p
      else missing

  -- `parseClientHelloExtensions`.
  pub parse_hello : Bytes → Outcome Bytes
  unfolding skip_block extensions
  parse_hello hello = do
    reject_if (ltb (length hello) 34)
    suites ← skip_block hello 1 34
    methods ← skip_block hello 2 suites
    rest ← skip_block hello 1 methods
    reject_if (ltb (length hello) (rest + 2))
    len_bytes ← slice hello rest (rest + 2)
    let ext_end = min (rest + 2 + from_be len_bytes) (length hello)
    extensions (suc (length hello)) hello ext_end (rest + 2)

  -- `TLSClientHello` behind the record header.
  handshake : Bytes → Outcome Bytes
  unfolding parse_hello
  handshake body = do
    reject_if (ltb (length body) 4)
    msg_type ← byte_at body 0
    reject_if (not (msg_type == 0x01))
    hs_bytes ← slice body 1 4
    let hello = drop 4 body
    let hs_len = from_be hs_bytes
    hello' ← (if ltb hs_len (length hello) then slice hello 0 hs_len else found hello)
    parse_hello hello'

  -- `TLSClientHello`.
  pub tls_client_hello : Bytes → Outcome Bytes
  unfolding handshake record_len
  tls_client_hello input = do
    reject_if (ltb (length input) 5)
    content_type ← byte_at input 0
    reject_if (not (content_type == 0x16))
    version ← byte_at input 1
    reject_if (not (version == 0x03))
    len_bytes ← slice input 3 5
    body ← slice input 5 (5 + record_len (from_be len_bytes) (length input))
    handshake body
