-- ===== src/Sniff/Tests.antt =====
-- A ClientHello with the host name "a.b", and the safety theorem on it.
use tamizdat.Sniff.Reading.{found, fault, byte_at, slice}
use tamizdat.Sniff.{tls_client_hello}
use tamizdat.Sniff.Safe.{tls_client_hello-ne-fault}
use tamizdat.Prelude.{ℕ, ◌≡◌, ◌≢◌, [], ◌∷◌, suc, ◌++◌, refl, zero}
use tamizdat.Prelude.Bytes.{Bytes}

abbrev zeros : ℕ → Bytes
zeros zero = []
zeros (suc n) = 0 ∷ zeros n

-- An empty session id, one cipher suite, one compression method, an ALPN block, and the name.
abbrev hello_ab : Bytes
hello_ab =
    0x16
    ∷ 3
    ∷ 1
    ∷ 0
    ∷ 64
    ∷ 1
    ∷ 0
    ∷ 0
    ∷ 60
    ∷ (zeros 34
        ++ (0 ∷ 0 ∷ 2 ∷ 0x13 ∷ 1 ∷ 1 ∷ 0 ∷ 0 ∷ 17 ∷ 0 ∷ 16 ∷ 0 ∷ 1 ∷ 9 ∷ 0 ∷ 0 ∷ 0 ∷ 8 ∷ 0 ∷ 6 ∷ 0
            ∷ 0 ∷ 3 ∷ b'a' ∷ b'.' ∷ b'b' ∷ []))

tls_client_hello-ab : tls_client_hello (λ name. name) hello_ab ≡ found (b'a' ∷ b'.' ∷ b'b' ∷ [])
unfolding tls_client_hello byte_at slice
tls_client_hello-ab = refl

tls_client_hello-ne-fault_example : tls_client_hello (λ name. name) hello_ab ≢ fault
tls_client_hello-ne-fault_example = tls_client_hello-ne-fault (λ name. name) hello_ab
