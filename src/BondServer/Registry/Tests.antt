-- ===== src/BondServer/Registry/Tests.antt =====
-- The registry of bonds on small runs.
use tamizdat.BondServer.Bind.{BondBind, pos}
use tamizdat.BondServer.Registry.{
  find, bind_config, Registry, ServerBond, Answer, for_device, key_of, acquire_commit, config_text,
  bind_ok, nothing,
}
use tamizdat.BondServer.Registry.Runs.{
  Run, System, enter, authenticate, commit, Reach, start, next, here, no_bonds, entered,
  authenticated, committed,
}
use tamizdat.BondServer.Registry.System.{IsSound}
use tamizdat.BondServer.Registry.Safety.{Reach-IsSound}
use tamizdat.BondServer.Registry.Access.{Admits, acquire_claim-Admits, acquire_commit-alone}
use tamizdat.Prelude.Bytes.{Bytes}
use tamizdat.Prelude.{ℕ, Bool, none, some, ◌∷◌, [], true, false, ◌≡◌, refl}

-- Two runs of one device, each by a claimant, and a joiner of the second.
abbrev bind_of : Bytes → Bool → BondBind
bind_of run wants = record {
  device_id = 7 ∷ [];
  run_id = run;
  token = 5 ∷ 6 ∷ [];
  room = pos 0;
  worker = pos 1;
  local_port = 57 ∷ [];
  want_config = wants;
  password = [];
}

abbrev old_claimant : BondBind
old_claimant = bind_of (1 ∷ []) true

abbrev new_claimant : BondBind
new_claimant = bind_of (2 ∷ []) true

abbrev joiner : BondBind
joiner = bind_of (2 ∷ []) false

abbrev bond_of : ℕ → BondBind → ServerBond
bond_of id bind = record {
  id = id;
  key = record { device_id = bind.device_id; run_id = bind.run_id };
  token = bind.token;
  config = 9 ∷ [];
}

abbrev held_by : BondBind → Bool → Run
held_by bind retired = record { bind = bind; retired = retired }

-- A call that enters, authenticates and is about to commit.
abbrev ready : BondBind → System → System
ready bind s = authenticated none false (held_by bind false) [] (entered false bind s)

abbrev taken_over : System
taken_over = committed (bond_of 2 new_claimant) (held_by new_claimant true) [] (
    ready new_claimant (
      committed (bond_of 1 old_claimant) (held_by old_claimant true) []
        (ready old_claimant no_bonds)))

-- The newer run has taken the device over.
taken_over_bonds : taken_over.registry.bonds ≡ (key_of new_claimant, bond_of 2 new_claimant) ∷ []
unfolding committed authenticated entered no_bonds key_of
taken_over_bonds = refl

abbrev ready_Reach : Reach no_bonds (ready old_claimant no_bonds)
unfolding authenticated entered no_bonds
ready_Reach = next (next start (enter no_bonds false old_claimant)) (
    authenticate (entered false old_claimant no_bonds) none false (held_by old_claimant false) []
      refl here)

abbrev first_Reach : Reach no_bonds (
    committed (bond_of 1 old_claimant) (held_by old_claimant true) [] (ready old_claimant no_bonds))
unfolding committed authenticated entered no_bonds key_of
first_Reach = next ready_Reach (
    commit (ready old_claimant no_bonds) (bond_of 1 old_claimant) (held_by old_claimant true) []
      refl refl here)

Reach-IsSound_example : IsSound (
    committed (bond_of 1 old_claimant) (held_by old_claimant true) [] (ready old_claimant no_bonds))
Reach-IsSound_example = Reach-IsSound first_Reach

abbrev first_commit : Registry × Answer
first_commit =
    acquire_commit (bond_of 1 old_claimant) old_claimant (ready old_claimant no_bonds).registry

acquire_commit-alone_example :
    (first_commit.1 ≡ record {
      bond = some (bond_of 1 old_claimant);
      typ = bind_config;
      text = config_text (9 ∷ []);
    })
    × (find (key_of old_claimant) first_commit.0.bonds ≡ some (bond_of 1 old_claimant))
    × (for_device (7 ∷ []) first_commit.0.bonds ≡ 1)
unfolding authenticated entered no_bonds key_of
acquire_commit-alone_example =
    acquire_commit-alone (ready old_claimant no_bonds) (bond_of 1 old_claimant)
      (held_by old_claimant true) [] (Reach-IsSound ready_Reach) here refl refl

acquire_claim-Admits_example :
    (false ≡ false) × Admits joiner (bond_of 2 new_claimant) taken_over.registry
unfolding committed authenticated entered no_bonds key_of
acquire_claim-Admits_example =
    acquire_claim-Admits false joiner taken_over.registry
      (record { bond = some (bond_of 2 new_claimant); typ = bind_ok; text = nothing })
      (bond_of 2 new_claimant) refl refl
