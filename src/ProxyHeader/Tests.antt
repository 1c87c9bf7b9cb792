-- ===== src/ProxyHeader/Tests.antt =====
-- A header of each version, with fields that end at spaces and one address for every text.
use tamizdat.ProxyHeader.{found, malformed, read_header, v2_signature}
use tamizdat.ProxyHeader.Consumed.{Keeps, read_header-Keeps}
use tamizdat.ProxyHeader.Printed.{v2_block, v2_header, read_header-v2_header}
use tamizdat.Prelude.Bytes.{Bytes}
use tamizdat.Prelude.{
  List, Option, none, some, ◌∷◌, [], ◌++◌, ◌≡◌, refl, arith, inl, if◌then◌else◌, ◌==◌,
}

abbrev words : Bytes → Bytes → List Bytes
words word [] = word ∷ []
words word (b ∷ more) =
    let longer = words (word ++ b ∷ []) more in
    let next = words [] more in if b == 32 then word ∷ next else longer

abbrev spaces : Bytes → List Bytes
spaces s = words [] s

abbrev one_address : Bytes → Option Bytes
one_address s = some (10 ∷ 1 ∷ 2 ∷ 3 ∷ [])

-- "PROXY TCP4 a b 80 443", and two bytes behind it.
abbrev v1_line : Bytes
v1_line =
    80 ∷ 82 ∷ 79 ∷ 88 ∷ 89 ∷ 32 ∷ 84 ∷ 67 ∷ 80 ∷ 52 ∷ 32 ∷ 97 ∷ 32 ∷ 98 ∷ 32 ∷ 56 ∷ 48 ∷ 32 ∷ 52
    ∷ 52 ∷ 51 ∷ 13 ∷ 10 ∷ 7 ∷ 8 ∷ []

v1_read :
    read_header spaces one_address v1_line
    ≡ found (some (record { ip = 10 ∷ 1 ∷ 2 ∷ 3 ∷ []; port = 80 })) (7 ∷ 8 ∷ [])
unfolding read_header
v1_read = refl

-- The command LOCAL.
local_read :
    read_header spaces one_address (v2_signature ++ 0x20 ∷ 0 ∷ 0 ∷ 1 ∷ 9 ∷ 5 ∷ [])
    ≡ found none (5 ∷ [])
unfolding read_header
local_read = refl

datagram_refused :
    read_header spaces one_address (v2_signature ++ 0x21 ∷ 0x12 ∷ 0 ∷ 1 ∷ 9 ∷ 5 ∷ []) ≡ malformed
unfolding read_header
datagram_refused = refl

read_header-Keeps_example : Keeps v1_line (read_header spaces one_address v1_line)
read_header-Keeps_example = read_header-Keeps spaces one_address v1_line

read_header-v2_header_example :
    read_header spaces one_address (
      v2_header 1 (v2_block (1 ∷ 2 ∷ 3 ∷ 4 ∷ []) (5 ∷ 6 ∷ 7 ∷ 8 ∷ []) 4000 443 (9 ∷ [])) ++ 22 ∷ [])
    ≡ found (some (record { ip = 1 ∷ 2 ∷ 3 ∷ 4 ∷ []; port = 4000 })) (22 ∷ [])
read_header-v2_header_example =
    read_header-v2_header spaces one_address 1 (1 ∷ 2 ∷ 3 ∷ 4 ∷ []) (5 ∷ 6 ∷ 7 ∷ 8 ∷ []) 4000 443
      (9 ∷ []) (22 ∷ []) (inl (refl, refl)) refl (omega arith) (unfold v2_block in omega arith)
