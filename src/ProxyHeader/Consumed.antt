-- ===== src/ProxyHeader/Consumed.antt =====
-- How much of a connection a header takes.
use tamizdat.ProxyHeader.{
  Header, found, not_proxy, malformed, peek_failed, max_header_size, TcpAddr, addr_of, read_block,
  read_v2, line_length, trim_crlf, source_of, read_fields, read_v1, read_header, v1_prefix,
  v2_signature, tcp4_proto, tcp6_proto, unknown_proto, read_addresses,
}
use tamizdat.Prelude.Text.{text_eq, starts_with}
use tamizdat.Prelude.Bytes.{Bytes, from_be}
use tamizdat.Prelude.{
  ℕ, Bool, List, Option, none, some, ◌∷◌, [], length, take, drop, get_or, ltb, ◌==◌, if◌then◌else◌,
  not, ◌&&◌, arith, ◌||◌, ◌/◌, ◌%◌, ◌+◌, ◌-◌, suc, true, false, zero, ◌++◌, ◌≡◌, ◌≤◌, refl, sym,
  take-append-drop, length-take, Option-cases, inl, inr, ap, ◌∙◌,
}

-- What a read hands back of a connection: behind a header, all but a head of at most the size of the buffer; without
-- one, everything.
abbrev pub Keeps : Bytes → Header → Type 0
Keeps conn (found a rest) = (head : Bytes) × (conn ≡ head ++ rest) × (length head ≤ max_header_size)
Keeps conn (not_proxy rest) = rest ≡ conn
Keeps conn malformed = Unit {0}
Keeps conn peek_failed = Unit {0}

either-Keeps :
    (b : Bool) (conn : Bytes) (x y : Header)
    → Keeps conn x
    → (b ≡ false → Keeps conn y)
    → Keeps conn (if b then x else y)
either-Keeps true conn x y k l = k
either-Keeps false conn x y k l = l refl

dropped-Keeps :
    (n : ℕ) (conn : Bytes) (a : Option TcpAddr)
    → n ≤ max_header_size
    → Keeps conn (found a (drop n conn))
dropped-Keeps n conn a h =
    (take n conn, sym (take-append-drop n conn), let t = length-take n conn in omega arith)

addr_of-Keeps :
    (family : ℕ) (block rest conn : Bytes)
    → ((a : Option TcpAddr) → Keeps conn (found a rest))
    → Keeps conn (addr_of family block rest)
unfolding addr_of
addr_of-Keeps family block rest conn k =
    either-Keeps (family == 1) conn _ _
      (either-Keeps (ltb (length block) 12) conn malformed _ tt
        (λ e. k (some (record { ip = take 4 block; port = from_be (take 2 (drop 8 block)) }))))
      (λ e.
        either-Keeps (family == 2) conn _ _
          (either-Keeps (ltb (length block) 36) conn malformed _ tt (λ f.
            k (some (record { ip = take 16 block; port = from_be (take 2 (drop 32 block)) }))))
          (λ f. either-Keeps (family == 3) conn _ malformed (k none) (λ g. tt)))

drop-nil : (n : ℕ) → drop {A = ℕ} n [] ≡ []
drop-nil zero = refl
drop-nil (suc n) = refl

drop-drop : (m n : ℕ) (xs : Bytes) → drop m (drop n xs) ≡ drop (n + m) xs
drop-drop m zero xs = ap (λ k. drop k xs) (omega arith)
drop-drop m (suc n) [] = drop-nil m ∙ sym (drop-nil (suc n + m))
drop-drop m (suc n) (x ∷ xs) =
    let q : suc (n + m) ≡ suc n + m = omega arith in
    drop-drop m n xs ∙ ap (λ (k : ℕ). drop k (x ∷ xs)) q

read_block-Keeps : (cmd fam_proto : ℕ) (conn : Bytes) → Keeps conn (read_block cmd fam_proto conn)
unfolding read_block
read_block-Keeps cmd fam_proto conn =
    let family = fam_proto / 16 in
    let addr_len = from_be (take 2 (drop 14 conn)) in
    let wrong = cmd == 1 && ((family == 1 || family == 2) && not (fam_proto % 16 == 1)) in
    either-Keeps wrong conn malformed _ tt (λ a.
      either-Keeps (ltb (max_header_size - 16) addr_len) conn malformed _ tt (λ b.
        let left : (a : Option TcpAddr) → Keeps conn (found a (drop addr_len (drop 16 conn))) = λ a.
          rw (drop-drop addr_len 16 conn) (dropped-Keeps (16 + addr_len) conn a (ground arith)) in
        either-Keeps (ltb (length (drop 16 conn)) addr_len) conn malformed _ tt (λ c.
          either-Keeps (cmd == 0 || family == 0) conn _ _ (left none) (λ d.
            either-Keeps (not (cmd == 1)) conn malformed _ tt
              (λ e. addr_of-Keeps family (take addr_len (drop 16 conn)) _ conn left)))))

read_v2-Keeps : (conn : Bytes) → Keeps conn (read_v2 conn)
unfolding read_v2
read_v2-Keeps conn = either-Keeps (ltb (length conn) 16) conn malformed _ tt (λ a.
    either-Keeps (not (get_or conn 12 0 / 16 == 2)) conn malformed _ tt
      (λ b. read_block-Keeps (get_or conn 12 0 % 16) (get_or conn 13 0) conn))

line_length_le : (room : ℕ) (conn : Bytes) (n : ℕ) → line_length room conn ≡ some n → n ≤ room
unfolding line_length
line_length_le zero conn n e = absurd (cc)
line_length_le (suc room) [] n e = absurd (cc)
line_length_le (suc room) (b ∷ conn) n e = elim (Option-cases (line_length room conn)) [
  | inl f ↦ ground (arith, e, f)
  | inr (m, f) ↦ let h = line_length_le room conn m f in ground (arith, e, f, h)
]

module _ (fields : Bytes → List Bytes) (parse_ip : Bytes → Option Bytes) where
  read_addresses-Keeps :
      (is_tcp4 : Bool) (fs : List Bytes) (rest conn : Bytes)
      → ((a : Option TcpAddr) → Keeps conn (found a rest))
      → Keeps conn (read_addresses fields parse_ip is_tcp4 fs rest)
  unfolding read_addresses
  read_addresses-Keeps is_tcp4 [] rest conn k = tt
  read_addresses-Keeps is_tcp4 (a ∷ []) rest conn k = tt
  read_addresses-Keeps is_tcp4 (a ∷ b ∷ []) rest conn k = tt
  read_addresses-Keeps is_tcp4 (a ∷ b ∷ c ∷ []) rest conn k = tt
  read_addresses-Keeps is_tcp4 (a ∷ b ∷ c ∷ d ∷ []) rest conn k =
      elim (Option-cases (source_of fields parse_ip is_tcp4 a b c d)) [
        | inl e ↦ rw (e, Keeps) tt
        | inr (addr, e) ↦ rw (e, Keeps) (k (some addr))
      ]
  read_addresses-Keeps is_tcp4 (a ∷ b ∷ c ∷ d ∷ e ∷ more) rest conn k = tt

  read_fields-Keeps :
      (fs : List Bytes) (rest conn : Bytes)
      → ((a : Option TcpAddr) → Keeps conn (found a rest))
      → Keeps conn (read_fields fields parse_ip fs rest)
  unfolding read_fields
  read_fields-Keeps [] rest conn k = tt
  read_fields-Keeps (proto ∷ more) rest conn k =
      either-Keeps (text_eq proto unknown_proto) conn _ _ (k none) (λ a.
        either-Keeps (not (text_eq proto tcp4_proto) && not (text_eq proto tcp6_proto)) conn
          malformed _ tt (λ b. read_addresses-Keeps (text_eq proto tcp4_proto) more rest conn k))

  read_v1-Keeps : (conn : Bytes) → Keeps conn (read_v1 fields parse_ip conn)
  unfolding read_v1
  read_v1-Keeps conn = elim (Option-cases (line_length max_header_size conn)) [
    | inl e ↦ rw e tt
    | inr (n, e) ↦ elim (Option-cases (trim_crlf (take n conn))) [
      | inl f ↦ rw (e, f) tt
      | inr (line, f) ↦
          rw (e, f)
            (either-Keeps (not (starts_with v1_prefix line)) conn malformed _ tt (λ g.
              read_fields-Keeps (fields (drop (length v1_prefix) line)) (drop n conn) conn
                (λ a. dropped-Keeps n conn a (line_length_le max_header_size conn n e))))
    ]
  ]

  -- A header that is accepted takes a head of at most 536 bytes and leaves the rest of the connection as it is; where
  -- there is no header, all of the connection is handed back.
  pub read_header-Keeps : (conn : Bytes) → Keeps conn (read_header fields parse_ip conn)
  unfolding read_header
  read_header-Keeps conn =
      either-Keeps (ltb (length conn) (length v2_signature)) conn peek_failed _ tt (λ a.
        either-Keeps (text_eq (take 12 conn) v2_signature) conn _ _ (read_v2-Keeps conn) (λ b.
          either-Keeps (starts_with v1_prefix (take 12 conn)) conn _ (not_proxy conn)
            (read_v1-Keeps conn) (λ c. refl)))
