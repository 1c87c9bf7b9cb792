-- ===== src/BondServer/Bind/Accepted.antt =====
-- What is known of a bind that `parseBondBind` lets through, and of two of one negotiation.
use tamizdat.BondServer.Bind.{
  BondBind, Json, ℤ, pos, negsuc, below, BindError, port_text, port_of_text, local_port_string,
  bad_port, no_port, check_bind, parse_bond_bind, bad_identity, bad_slot, joiner_password, bad_size,
  bad_json,
}
use tamizdat.Prelude.Bytes.{Bytes}
use tamizdat.Prelude.{
  ℕ, Result, ok, err, length, ◌==◌, true, false, arith, ◌≡◌, ◌≤◌, ◌<◌, Bool-cases, Option-cases,
  inl, inr, refl, ◌≢◌, sym, ◌∙◌, ◌⊎◌, Bool, not, ◌||◌, ◌&&◌, some, ltb, ap,
}
use mathlib.Core.Path.{subst}

-- The texts are of the lengths asked for, the slot is one of six rooms and of the workers 1 to 120, the port is read
-- and in 1 to 65535, and a joiner has no password.
pub record IsAccepted (json : Json) (b : BondBind) : Type 0 where
  pub device : (1 ≤ length b.device_id) × (length b.device_id ≤ 256)
  pub run : (16 ≤ length b.run_id) × (length b.run_id ≤ 128)
  pub token : (32 ≤ length b.token) × (length b.token ≤ 256)
  pub room : (n : ℕ) × (b.room ≡ pos n) × (n < 6)
  pub worker : (n : ℕ) × (b.worker ≡ pos n) × (1 ≤ n) × (n ≤ 120)
  pub port : (n : ℕ) × (local_port_string json b ≡ ok (json.itoa (pos n))) × (1 ≤ n) × (n ≤ 65535)
  pub joiner : b.want_config ≡ false → length b.password ≡ 0

in_range :
    (z : ℤ) (lo hi : ℕ)
    → below z lo ≡ false
    → below z hi ≡ true
    → (n : ℕ) × (z ≡ pos n) × (lo ≤ n) × (n < hi)
unfolding below
in_range (pos n) lo hi h k = (n, refl, ground arith, ground arith)
in_range (negsuc n) lo hi h k = absurd (cc)

abbrev PortRead : Json → Result BindError Bytes → Type 0
PortRead json result = (n : ℕ) × (result ≡ ok (json.itoa (pos n))) × (1 ≤ n) × (n ≤ 65535)

err_not_ok : {B : Type 0} (e : BindError) (b : B) → (err e) ≢ (ok b)
err_not_ok e b h = absurd (cc)

port_text-PortRead :
    (json : Json) (z : ℤ) (t : Bytes) → port_text json z ≡ ok t → PortRead json (port_text json z)
unfolding port_text
port_text-PortRead json z t h = elim (Bool-cases (below z 1)) [
  | inl low ↦ absurd (err_not_ok bad_port t (rw low at h))
  | inr above ↦ elim (Bool-cases (below z 65536)) [
    | inr high ↦ absurd (err_not_ok bad_port t (rw (above, high) at h))
    | inl fits ↦
        let (n, e, lo, hi) = in_range z 1 65536 above fits in
        (n, rw (above, fits, e) refl, lo, omega arith)
  ]
]

port_of_text-PortRead :
    (json : Json) (raw t : Bytes)
    → port_of_text json raw ≡ ok t
    → PortRead json (port_of_text json raw)
unfolding port_of_text
port_of_text-PortRead json raw t h = elim (Option-cases (json.text raw)) [
  | inl e ↦ absurd (err_not_ok bad_port t (rw (e, port_of_text) at h))
  | inr (text, e) ↦ elim (Option-cases (json.atoi text)) [
    | inl f ↦ absurd (err_not_ok bad_port t (rw (e, f, port_of_text) at h))
    | inr (z, f) ↦
        let same : port_of_text json raw ≡ port_text json z =
          unfold port_of_text in rw (e, f, port_of_text) refl in
        subst (PortRead json) (sym same) (port_text-PortRead json z t (sym same ∙ h))
  ]
]

-- A port that `localPortString` gives is in its range.
pub local_port_string-PortRead :
    (json : Json) (b : BondBind) (t : Bytes)
    → local_port_string json b ≡ ok t
    → PortRead json (local_port_string json b)
unfolding local_port_string
local_port_string-PortRead json b t h = elim (Bool-cases (length b.local_port == 0)) [
  | inl missing ↦ absurd (err_not_ok no_port t (rw missing at h))
  | inr there ↦ elim (Option-cases (json.int b.local_port)) [
    | inl e ↦
        let same : local_port_string json b ≡ port_of_text json b.local_port =
          unfold local_port_string in rw (there, e, local_port_string) refl in
        subst (PortRead json) (sym same) (port_of_text-PortRead json b.local_port t (sym same ∙ h))
    | inr (z, e) ↦
        let same : local_port_string json b ≡ port_text json z =
          unfold local_port_string in rw (there, e, local_port_string) refl in
        subst (PortRead json) (sym same) (port_text-PortRead json z t (sym same ∙ h))
  ]
]

Result-cases :
    {B : Type 0} (x : Result BindError B) → ((e : BindError) × (x ≡ err e)) ⊎ ((b : B) × (x ≡ ok b))
Result-cases (ok b) = inr (b, refl)
Result-cases (err e) = inl (e, refl)

abbrev bad_texts : BondBind → Bool
bad_texts b =
    length b.device_id == 0
    || ltb 256 (length b.device_id)
    || ltb (length b.run_id) 16
    || ltb 128 (length b.run_id)
    || ltb (length b.token) 32
    || ltb 256 (length b.token)

abbrev bad_place : BondBind → Bool
bad_place b = below b.room 0 || not (below b.room 6) || below b.worker 1 || not (below b.worker 121)

checked-IsAccepted :
    (json : Json) (b : BondBind) (t : Bytes)
    → bad_texts b ≡ false
    → bad_place b ≡ false
    → local_port_string json b ≡ ok t
    → (not b.want_config && not (length b.password == 0)) ≡ false
    → IsAccepted json b
checked-IsAccepted json b t texts place port joiner =
    let (room, room_at, room_lo, room_hi) = in_range b.room 0 6 (ground arith) (ground arith) in
    let (worker, worker_at, worker_lo, worker_hi) =
      in_range b.worker 1 121 (ground arith) (ground arith) in
    record {
      device = ground arith;
      run = ground arith;
      token = ground arith;
      room = (room, room_at, room_hi);
      worker = (worker, worker_at, worker_lo, omega arith);
      port = local_port_string-PortRead json b t port;
      joiner = λ h. ground arith;
    }

check_bind-IsAccepted :
    (json : Json) (b c : BondBind) → check_bind json b ≡ ok c → (b ≡ c) × IsAccepted json b
unfolding check_bind
check_bind-IsAccepted json b c h = elim (Bool-cases (bad_texts b)) [
  | inl bad ↦ absurd (err_not_ok bad_identity c (rw bad at h))
  | inr texts ↦ elim (Bool-cases (bad_place b)) [
    | inl bad ↦ absurd (err_not_ok bad_slot c (rw (texts, bad) at h))
    | inr place ↦ elim (Result-cases (local_port_string json b)) [
      | inl (e, f) ↦ absurd (err_not_ok e c (rw (texts, place, f, check_bind) at h))
      | inr (t, f) ↦ elim (Bool-cases (not b.want_config && not (length b.password == 0))) [
        | inl bad ↦
            absurd (err_not_ok joiner_password c (rw (texts, place, f, bad, check_bind) at h))
        | inr joiner ↦
            let same : ◌≡◌ {A = Result BindError BondBind} (ok b) (ok c) =
              rw (texts, place, f, joiner, check_bind) at h in
            (ground arith, checked-IsAccepted json b t texts place f joiner)
      ]
    ]
  ]
]

-- A payload that `parseBondBind` takes has at most 4096 bytes, and gives the bind that encoding/json reads in it; its
-- device, run and token are of the lengths asked for, its slot is one of the rooms 0 to 5 and of the workers 1 to
-- 120, its port is read and lies in 1 to 65535, and it has no password unless it wants the configuration.
pub parse_bond_bind-IsAccepted :
    (json : Json) (payload : Bytes) (b : BondBind)
    → parse_bond_bind json payload ≡ ok b
    → (length payload ≤ 4096) × (json.bind payload ≡ some b) × IsAccepted json b
unfolding parse_bond_bind
parse_bond_bind-IsAccepted json payload b h =
    elim (Bool-cases (length payload == 0 || ltb 4096 (length payload))) [
      | inl bad ↦ absurd (err_not_ok bad_size b (rw bad at h))
      | inr size ↦ elim (Option-cases (json.bind payload)) [
        | inl e ↦ absurd (err_not_ok bad_json b (rw (size, e, parse_bond_bind) at h))
        | inr (raw, e) ↦
            let checked : check_bind json raw ≡ ok b = rw (size, e, parse_bond_bind) at h in
            let (same, accepted) = check_bind-IsAccepted json raw b checked in
            (
              ground arith,
              e ∙ ap (λ (x : BondBind). some x) same,
              subst (IsAccepted json) same accepted,
            )
      ]
    ]
