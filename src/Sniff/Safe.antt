-- ===== src/Sniff/Safe.antt =====
-- The sniffer never panics and always ends: no input makes it fault.
use tamizdat.Sniff.Reading.{
  Outcome, found, missing, fault, byte_at, slice, reject_if, Safe, Safe-bind, byte_at-Safe,
  slice-Safe, reject_if-Safe,
}
use tamizdat.Sniff.{
  host_name, sni_round, sni_entries, parse_sni, extension_round, extensions, skip_block,
  parse_hello, record_len, tls_client_hello, handshake,
}
use tamizdat.Prelude.Bytes.{Bytes, from_be}
use tamizdat.Prelude.{
  ℕ, Bool-cases, ltb, ◌+◌, length, ◌≤◌, ◌≡◌, ◌==◌, arith, ◌<◌, false, inl, ◌-◌, suc, inr, leb,
  leb→le, zero, if◌then◌else◌, not, ◌≢◌, ltb→lt, drop,
}

-- Nothing is asked of the value.
abbrev Any : {A : Type 0} → A → Type 0
Any _ = Unit {0}

skip_block-Safe :
    (hello : Bytes) (width p : ℕ)
    → Safe (λ q. (p + width ≤ q) × (q ≤ length hello)) (skip_block hello width p)
unfolding skip_block
skip_block-Safe hello width p =
    Safe-bind (λ _. ltb (length hello) (p + width) ≡ false) _
      (reject_if (ltb (length hello) (p + width))) _ (reject_if-Safe _)
      λ _ h.
        Safe-bind (λ ys. length ys ≡ p + width - p) _ (slice hello p (p + width)) _
          (slice-Safe hello p (p + width) (omega arith) (ground arith))
          λ ys _.
            Safe-bind (λ _. ltb (length hello) (p + width + from_be ys) ≡ false) _
              (reject_if (ltb (length hello) (p + width + from_be ys))) _ (reject_if-Safe _)
              λ _ k. (ground arith, ground arith)

record_len_le : (declared size : ℕ) → 5 ≤ size → 5 + record_len declared size ≤ size
unfolding record_len
record_len_le declared size h = ground arith

hello_part :
    (hs_len : ℕ) (hello : Bytes)
    → Safe Any (if ltb hs_len (length hello) then slice hello 0 hs_len else found hello)
hello_part hs_len hello = elim (Bool-cases (ltb hs_len (length hello))) [
  | inr e ↦ rw e tt
  | inl e ↦ rw e (
      weaken (slice hello 0 hs_len)
        (slice-Safe hello 0 hs_len (omega arith) (omega (arith, ltb→lt _ _ e))))
]
  where
    weaken : (m : Outcome Bytes) → Safe (λ ys. length ys ≡ hs_len - 0) m → Safe Any m
    weaken (found ys) h = tt
    weaken missing h = tt
    weaken fault h = h

module _ (lower_trim : Bytes → Bytes) where
  host_name-Safe : (name : Bytes) → Safe Any (host_name lower_trim name)
  unfolding host_name
  host_name-Safe name = elim (Bool-cases (length (lower_trim name) == 0)) [
    | inl e ↦ rw e tt
    | inr e ↦ rw e tt
  ]

  sni_round-Safe :
      (next : ℕ → Outcome Bytes) (names : Bytes) (p : ℕ)
      → p + 3 ≤ length names
      → ((q : ℕ) → p + 3 ≤ q → q ≤ length names → Safe Any (next q))
      → Safe Any (sni_round lower_trim next names p)
  unfolding sni_round
  sni_round-Safe next names p h k =
      Safe-bind Any Any (byte_at names p) _ (byte_at-Safe names p (omega arith)) λ t _.
        Safe-bind (λ ys. length ys ≡ p + 3 - (p + 1)) Any (slice names (p + 1) (p + 3)) _
          (slice-Safe names (p + 1) (p + 3) (omega arith) (omega arith))
          λ ys _.
            Safe-bind (λ _. ltb (length names) (p + 3 + from_be ys) ≡ false) Any
              (reject_if (ltb (length names) (p + 3 + from_be ys))) _ (reject_if-Safe _)
              λ _ b.
                Safe-bind (λ zs. length zs ≡ p + 3 + from_be ys - (p + 3)) Any
                  (slice names (p + 3) (p + 3 + from_be ys)) _
                  (slice-Safe names (p + 3) (p + 3 + from_be ys) (omega arith) (ground arith))
                  λ zs _. elim (Bool-cases (t == 0)) [
                    | inl e ↦ rw e (host_name-Safe zs)
                    | inr e ↦ rw e (k (p + 3 + from_be ys) (omega arith) (ground arith))
                  ]

  sni_entries-Safe :
      (fuel : ℕ) (names : Bytes) (p : ℕ)
      → length names < fuel + p
      → p ≤ length names
      → Safe Any (sni_entries lower_trim fuel names p)
  unfolding sni_entries
  sni_entries-Safe zero names p h k = absurd (omega arith)
  sni_entries-Safe (suc fuel) names p h k = elim (Bool-cases (leb (p + 3) (length names))) [
    | inr e ↦ rw e tt
    | inl e ↦ rw e (
        sni_round-Safe (sni_entries lower_trim fuel names) names p (leb→le _ _ e)
          (λ q lo hi. sni_entries-Safe fuel names q (omega arith) hi))
  ]

  parse_sni-Safe : (ext : Bytes) → Safe Any (parse_sni lower_trim ext)
  unfolding parse_sni
  parse_sni-Safe ext =
      Safe-bind (λ _. ltb (length ext) 2 ≡ false) Any (reject_if (ltb (length ext) 2)) _
        (reject_if-Safe _)
        λ _ h.
          Safe-bind (λ ys. length ys ≡ 2) Any (slice ext 0 2) _
            (slice-Safe ext 0 2 (omega arith) (ground arith))
            λ ys _.
              Safe-bind (λ _. ltb (length ext) (from_be ys + 2) ≡ false) Any
                (reject_if (ltb (length ext) (from_be ys + 2))) _ (reject_if-Safe _)
                λ _ k.
                  Safe-bind (λ zs. length zs ≡ from_be ys + 2 - 2) Any
                    (slice ext 2 (from_be ys + 2)) _
                    (slice-Safe ext 2 (from_be ys + 2) (omega arith) (ground arith))
                    λ zs _. sni_entries-Safe (suc (length zs)) zs 0 (omega arith) (omega arith)

  extension_round-Safe :
      (next : ℕ → Outcome Bytes) (hello : Bytes) (ext_end p : ℕ)
      → ext_end ≤ length hello
      → p + 4 ≤ ext_end
      → ((q : ℕ) → p + 4 ≤ q → q ≤ ext_end → Safe Any (next q))
      → Safe Any (extension_round lower_trim next hello ext_end p)
  unfolding extension_round
  extension_round-Safe next hello ext_end p inside h k =
      Safe-bind (λ ys. length ys ≡ p + 2 - p) Any (slice hello p (p + 2)) _
        (slice-Safe hello p (p + 2) (omega arith) (omega arith))
        λ ts _.
          Safe-bind (λ ys. length ys ≡ p + 4 - (p + 2)) Any (slice hello (p + 2) (p + 4)) _
            (slice-Safe hello (p + 2) (p + 4) (omega arith) (omega arith))
            λ ys _.
              Safe-bind (λ _. ltb ext_end (p + 4 + from_be ys) ≡ false) Any
                (reject_if (ltb ext_end (p + 4 + from_be ys))) _ (reject_if-Safe _)
                λ _ b.
                  Safe-bind (λ zs. length zs ≡ p + 4 + from_be ys - (p + 4)) Any
                    (slice hello (p + 4) (p + 4 + from_be ys)) _
                    (slice-Safe hello (p + 4) (p + 4 + from_be ys) (omega arith) (ground arith))
                    λ zs _. elim (Bool-cases (from_be ts == 0)) [
                      | inl e ↦ rw e (parse_sni-Safe zs)
                      | inr e ↦ rw e (k (p + 4 + from_be ys) (omega arith) (ground arith))
                    ]

  extensions-Safe :
      (fuel : ℕ) (hello : Bytes) (ext_end p : ℕ)
      → ext_end ≤ length hello
      → p ≤ ext_end
      → ext_end < fuel + p
      → Safe Any (extensions lower_trim fuel hello ext_end p)
  unfolding extensions
  extensions-Safe zero hello ext_end p inside k h = absurd (omega arith)
  extensions-Safe (suc fuel) hello ext_end p inside k h = elim (Bool-cases (leb (p + 4) ext_end)) [
    | inr e ↦ rw e tt
    | inl e ↦ rw e (
        extension_round-Safe (extensions lower_trim fuel hello ext_end) hello ext_end p inside
          (leb→le _ _ e) (λ q lo hi. extensions-Safe fuel hello ext_end q inside hi (omega arith)))
  ]

  parse_hello-Safe : (hello : Bytes) → Safe Any (parse_hello lower_trim hello)
  unfolding parse_hello
  parse_hello-Safe hello =
      Safe-bind (λ _. ltb (length hello) 34 ≡ false) Any (reject_if (ltb (length hello) 34)) _
        (reject_if-Safe _)
        λ _ h.
          Safe-bind (λ q. (35 ≤ q) × (q ≤ length hello)) Any (skip_block hello 1 34) _
            (skip_block-Safe hello 1 34)
            λ a ha.
              Safe-bind (λ q. (a + 2 ≤ q) × (q ≤ length hello)) Any (skip_block hello 2 a) _
                (skip_block-Safe hello 2 a)
                λ b hb.
                  Safe-bind (λ q. (b + 1 ≤ q) × (q ≤ length hello)) Any (skip_block hello 1 b) _
                    (skip_block-Safe hello 1 b)
                    λ c hc.
                      Safe-bind (λ _. ltb (length hello) (c + 2) ≡ false) Any
                        (reject_if (ltb (length hello) (c + 2))) _ (reject_if-Safe _)
                        λ _ k.
                          Safe-bind (λ ys. length ys ≡ c + 2 - c) Any (slice hello c (c + 2)) _
                            (slice-Safe hello c (c + 2) (omega arith) (ground arith))
                            λ ys _.
                              extensions-Safe (suc (length hello)) hello _ (c + 2) (omega arith)
                                (ground arith) (omega arith)

  handshake-Safe : (body : Bytes) → Safe Any (handshake lower_trim body)
  unfolding handshake
  handshake-Safe body =
      Safe-bind (λ _. ltb (length body) 4 ≡ false) Any (reject_if (ltb (length body) 4)) _
        (reject_if-Safe _)
        λ _ h. Safe-bind Any Any (byte_at body 0) _ (byte_at-Safe body 0 (ground arith)) λ mt _.
          Safe-bind (λ _. not (mt == 0x01) ≡ false) Any (reject_if (not (mt == 0x01))) _
            (reject_if-Safe _)
            λ _ _.
              Safe-bind (λ ys. length ys ≡ 3) Any (slice body 1 4) _
                (slice-Safe body 1 4 (omega arith) (ground arith))
                λ ys _.
                  Safe-bind Any Any
                    (if ltb (from_be ys) (length (drop 4 body))
                      then slice (drop 4 body) 0 (from_be ys)
                      else found (drop 4 body))
                    _ (hello_part (from_be ys) (drop 4 body)) λ hello _. parse_hello-Safe hello

  tls_client_hello-Safe : (input : Bytes) → Safe Any (tls_client_hello lower_trim input)
  unfolding tls_client_hello
  tls_client_hello-Safe input =
      Safe-bind (λ _. ltb (length input) 5 ≡ false) Any (reject_if (ltb (length input) 5)) _
        (reject_if-Safe _)
        λ _ h. Safe-bind Any Any (byte_at input 0) _ (byte_at-Safe input 0 (ground arith)) λ ct _.
          Safe-bind (λ _. not (ct == 0x16) ≡ false) Any (reject_if (not (ct == 0x16))) _
            (reject_if-Safe _)
            λ _ _.
              Safe-bind Any Any (byte_at input 1) _ (byte_at-Safe input 1 (ground arith)) λ v _.
                Safe-bind (λ _. not (v == 0x03) ≡ false) Any (reject_if (not (v == 0x03))) _
                  (reject_if-Safe _)
                  λ _ _.
                    Safe-bind (λ ys. length ys ≡ 2) Any (slice input 3 5) _
                      (slice-Safe input 3 5 (omega arith) (ground arith))
                      λ ys _.
                        Safe-bind (λ zs. length zs ≡ 5 + record_len (from_be ys) (length input) - 5)
                          Any (slice input 5 (5 + record_len (from_be ys) (length input))) _
                          (slice-Safe input 5 (5 + record_len (from_be ys) (length input))
                            (omega arith)
                            (record_len_le (from_be ys) (length input) (ground arith)))
                          λ body _. handshake-Safe body

  -- No input makes the sniffer read out of range, and its loops end on every input.
  pub tls_client_hello-ne-fault : (input : Bytes) → tls_client_hello lower_trim input ≢ fault
  tls_client_hello-ne-fault input e = rw e at (tls_client_hello-Safe input)
