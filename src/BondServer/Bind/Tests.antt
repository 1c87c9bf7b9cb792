-- ===== src/BondServer/Bind/Tests.antt =====
-- A bind of the slot 80 in the room 3, through a `Json` that reads any payload as that bind.
use tamizdat.BondServer.Bind.{BondBind, Json, pos, parse_bond_bind, bad_slot}
use tamizdat.BondServer.Bind.Accepted.{IsAccepted, parse_bond_bind-IsAccepted}
use tamizdat.Prelude.Bytes.{Bytes}
use tamizdat.Prelude.{ℕ, none, some, err, ◌∷◌, [], ◌++◌, true, ◌≡◌, ◌≤◌, refl, length}

abbrev sixteen : Bytes
sixteen = 1 ∷ 2 ∷ 3 ∷ 4 ∷ 5 ∷ 6 ∷ 7 ∷ 8 ∷ 1 ∷ 2 ∷ 3 ∷ 4 ∷ 5 ∷ 6 ∷ 7 ∷ 8 ∷ []

abbrev claimant : ℕ → BondBind
claimant worker = record {
  device_id = 7 ∷ [];
  run_id = sixteen;
  token = sixteen ++ sixteen;
  room = pos 3;
  worker = pos worker;
  local_port = b'9' ∷ [];
  want_config = true;
  password = 1 ∷ [];
}

abbrev json_of : BondBind → Json
json_of bind = record {
  bind = λ payload. some bind;
  int = λ raw. some (pos 9);
  text = λ raw. none;
  atoi = λ text. none;
  itoa = λ z. b'9' ∷ [];
}

-- The worker 121 is one too many.
refused : parse_bond_bind (json_of (claimant 121)) (0 ∷ []) ≡ err bad_slot
unfolding parse_bond_bind
refused = refl

parse_bond_bind-IsAccepted_example :
    (length {A = ℕ} (0 ∷ []) ≤ 4096)
    × ((json_of (claimant 80)).bind (0 ∷ []) ≡ some (claimant 80))
    × IsAccepted (json_of (claimant 80)) (claimant 80)
unfolding parse_bond_bind
parse_bond_bind-IsAccepted_example =
    parse_bond_bind-IsAccepted (json_of (claimant 80)) (0 ∷ []) (claimant 80) refl
