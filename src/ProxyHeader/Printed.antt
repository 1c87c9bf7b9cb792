-- ===== src/ProxyHeader/Printed.antt =====
-- A header as the PROXY protocol, version 2, prints it, read back.
use tamizdat.ProxyHeader.{
  Header, found, malformed, addr_of, read_block, read_v2, read_header, v2_signature, peek_failed,
}
use tamizdat.Prelude.Text.{text_eq}
use tamizdat.Prelude.Bytes.{Bytes, from_be, be_bytes, from_be-be_bytes}
use tamizdat.Prelude.{
  ℕ, Bool, List, Option, some, ◌∷◌, length, take, drop, ltb, if◌then◌else◌, arith, ◌+◌, ◌*◌, true,
  false, ◌++◌, ◌≡◌, ◌≤◌, ◌<◌, refl, sym, inl, inr, ap, ◌∙◌, ◌⊎◌, take-append, drop-append,
  length-append, append_assoc, ◌^◌, le→ltb,
}

-- The block of the addresses, with what follows them in the header.
unfoldable pub v2_block : Bytes → Bytes → ℕ → ℕ → Bytes → Bytes
v2_block src dst src_port dst_port tlvs =
    src ++ (dst ++ (be_bytes 2 src_port ++ (be_bytes 2 dst_port ++ tlvs)))

-- A header of version 2 with the command PROXY and the transport STREAM.
unfoldable pub v2_header : ℕ → Bytes → Bytes
v2_header family block =
    v2_signature ++ 0x21 ∷ (family * 16 + 1) ∷ (be_bytes 2 (length block) ++ block)

-- The families of addresses and their lengths: IPv4 and IPv6.
abbrev pub IsFamily : ℕ → ℕ → Type 0
IsFamily family n = ((family ≡ 1) × (n ≡ 4)) ⊎ ((family ≡ 2) × (n ≡ 16))

take_of : (n : ℕ) (xs ys : Bytes) → length xs ≡ n → take n (xs ++ ys) ≡ xs
take_of n xs ys e = ap (λ (k : ℕ). take k (xs ++ ys)) (sym e) ∙ take-append xs ys

drop_of : (n : ℕ) (xs ys : Bytes) → length xs ≡ n → drop n (xs ++ ys) ≡ ys
drop_of n xs ys e = ap (λ (k : ℕ). drop k (xs ++ ys)) (sym e) ∙ drop-append xs ys

-- The port of the client behind the two addresses.
port_of :
    (n : ℕ) (src dst : Bytes) (src_port dst_port : ℕ) (tlvs : Bytes)
    → length src + length dst ≡ n
    → src_port < 2 ^ 16
    → from_be (take 2 (drop n (v2_block src dst src_port dst_port tlvs))) ≡ src_port
unfolding v2_block
port_of n src dst src_port dst_port tlvs e h =
    let tail = be_bytes 2 src_port ++ (be_bytes 2 dst_port ++ tlvs) in
    let a : drop n (v2_block src dst src_port dst_port tlvs) ≡ tail =
      ap (λ (t : Bytes). drop n t) (sym (append_assoc src dst tail))
      ∙ drop_of n (src ++ dst) tail (length-append src dst ∙ e) in
    ap (λ (t : Bytes). from_be (take 2 t)) a ∙ from_be-be_bytes 2 src_port h

found_same :
    (ip ip' : Bytes) (port port' : ℕ) (rest : Bytes)
    → ip ≡ ip'
    → port ≡ port'
    → found (some (record { ip = ip; port = port })) rest
      ≡ found (some (record { ip = ip'; port = port' })) rest
found_same ip ip' port port' rest e f = rw (e, f) refl

either_same : (b : Bool) (x y z : Header) → b ≡ false → y ≡ z → (if b then x else y) ≡ z
either_same true x y z e q = absurd (cc)
either_same false x y z e q = q

-- The block is long enough for the two addresses and the two ports.
length-v2_block :
    (src dst : Bytes) (src_port dst_port : ℕ) (tlvs : Bytes)
    → length (v2_block src dst src_port dst_port tlvs)
      ≡ length src + (length dst + (4 + length tlvs))
unfolding v2_block
length-v2_block src dst src_port dst_port tlvs =
    let ports = be_bytes 2 src_port ++ (be_bytes 2 dst_port ++ tlvs) in
    let whole = length-append src (dst ++ ports) in
    let behind = length-append dst ports in omega (arith, whole, behind)

addr_of-v2_block :
    (family : ℕ) (src dst : Bytes) (src_port dst_port : ℕ) (tlvs rest : Bytes)
    → IsFamily family (length src)
    → length dst ≡ length src
    → src_port < 2 ^ 16
    → addr_of family (v2_block src dst src_port dst_port tlvs) rest
      ≡ found (some (record { ip = src; port = src_port })) rest
unfolding addr_of
addr_of-v2_block family src dst src_port dst_port tlvs rest (inl (f, n)) d h =
    let block = v2_block src dst src_port dst_port tlvs in
    let size = length-v2_block src dst src_port dst_port tlvs in
    rw f (
      either_same (ltb (length block) 12) malformed _ _
        (le→ltb (length block) 12 (omega (arith, size)))
        (found_same (take 4 block) src _ src_port rest (unfold v2_block in take_of 4 src _ n)
          (port_of 8 src dst src_port dst_port tlvs (omega arith) h)))
addr_of-v2_block family src dst src_port dst_port tlvs rest (inr (f, n)) d h =
    let block = v2_block src dst src_port dst_port tlvs in
    let size = length-v2_block src dst src_port dst_port tlvs in
    rw f (
      either_same (ltb (length block) 36) malformed _ _
        (le→ltb (length block) 36 (omega (arith, size)))
        (found_same (take 16 block) src _ src_port rest (unfold v2_block in take_of 16 src _ n)
          (port_of 32 src dst src_port dst_port tlvs (omega arith) h)))

-- The checks of the length of the block.
block_of :
    (family n : ℕ) (block rest : Bytes)
    → n ≡ length block
    → n ≤ 520
    → (if ltb 520 n
        then malformed
        else if ltb (length (block ++ rest)) n
        then malformed
        else addr_of family (take n (block ++ rest)) (drop n (block ++ rest)))
      ≡ addr_of family block rest
block_of family n block rest e h =
    let size = length-append block rest in
    either_same (ltb 520 n) malformed _ _ (le→ltb 520 n h) (
      either_same (ltb (length (block ++ rest)) n) malformed _ _
        (le→ltb (length (block ++ rest)) n (omega (arith, size)))
        (rw (take_of n block rest (sym e), drop_of n block rest (sym e)) refl))

read_v2-v2_header :
    (family : ℕ) (block rest : Bytes)
    → (family ≡ 1) ⊎ (family ≡ 2)
    → length block ≤ 520
    → read_v2 (v2_header family block ++ rest) ≡ addr_of family block rest
unfolding read_v2 v2_header read_block
read_v2-v2_header family block rest (inl f) h =
    let len = from_be-be_bytes 2 (length block) (omega arith) in
    rw f (
      either_same (ltb (length (v2_header 1 block ++ rest)) 16) malformed _ _
        (le→ltb (length (v2_header 1 block ++ rest)) 16 (omega arith))
        (block_of 1 (from_be (be_bytes 2 (length block))) block rest len (omega (arith, len))))
read_v2-v2_header family block rest (inr f) h =
    let len = from_be-be_bytes 2 (length block) (omega arith) in
    rw f (
      either_same (ltb (length (v2_header 2 block ++ rest)) 16) malformed _ _
        (le→ltb (length (v2_header 2 block ++ rest)) 16 (omega arith))
        (block_of 2 (from_be (be_bytes 2 (length block))) block rest len (omega (arith, len))))

read_header_signed :
    (fields : Bytes → List Bytes) (parse_ip : Bytes → Option Bytes) (family : ℕ)
    (block rest : Bytes)
    → read_header fields parse_ip (v2_header family block ++ rest)
      ≡ read_v2 (v2_header family block ++ rest)
unfolding read_header text_eq v2_header
read_header_signed fields parse_ip family block rest =
    either_same (ltb (length (v2_header family block ++ rest)) 12) peek_failed _ _
      (le→ltb (length (v2_header family block ++ rest)) 12 (omega arith)) refl

family_of : (family n : ℕ) → IsFamily family n → (family ≡ 1) ⊎ (family ≡ 2)
family_of family n (inl (f, e)) = inl f
family_of family n (inr (f, e)) = inr f

-- What the protocol prints of version 2 for a client over IPv4 or IPv6 is read back: `ReadHeader` gives the address
-- and the port of the client, and leaves what stands behind the header, where the block of the addresses with its
-- further fields is at most 520 bytes long and the ports are below 2^16.
pub read_header-v2_header :
    (fields : Bytes → List Bytes) (parse_ip : Bytes → Option Bytes) (family : ℕ) (src dst : Bytes)
    (src_port dst_port : ℕ) (tlvs rest : Bytes)
    → IsFamily family (length src)
    → length dst ≡ length src
    → src_port < 2 ^ 16
    → length (v2_block src dst src_port dst_port tlvs) ≤ 520
    → read_header fields parse_ip
        (v2_header family (v2_block src dst src_port dst_port tlvs) ++ rest)
      ≡ found (some (record { ip = src; port = src_port })) rest
read_header-v2_header fields parse_ip family src dst src_port dst_port tlvs rest f d p h =
    let block = v2_block src dst src_port dst_port tlvs in
    read_header_signed fields parse_ip family block rest
    ∙ read_v2-v2_header family block rest (family_of family (length src) f) h
    ∙ addr_of-v2_block family src dst src_port dst_port tlvs rest f d p
