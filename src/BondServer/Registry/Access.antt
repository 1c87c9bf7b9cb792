-- ===== src/BondServer/Registry/Access.antt =====
-- Who gets a bond: a joiner by the token of the run, and a call that commits.
use tamizdat.Prelude.Text.{text_eq→≡}
use tamizdat.BondServer.Bind.{BondBind, bond_token_matches}
use tamizdat.BondServer.Registry.{
  BondKey, Keyed, for_device, find, delete, Registry, ServerBond, Answer, key_of, acquire_claim,
  acquire_commit, claim, join, config_text, bind_config, refuse, server_shutdown, token_mismatch,
  wait_for, nothing,
}
use tamizdat.BondServer.Registry.Counts.{key_eq_refl, find-of-for_key}
use tamizdat.BondServer.Registry.Runs.{Run, System, Pick, entry}
use tamizdat.BondServer.Registry.System.{IsSound}
use tamizdat.BondServer.Registry.Leave.{none_of_key, joined_device}
use tamizdat.BondServer.Registry.Outcomes.{committed-open}
use tamizdat.Prelude.Bytes.{Bytes}
use tamizdat.Prelude.{
  Bool, none, some, ◌∷◌, if◌then◌else◌, true, false, arith, ◌≡◌, refl, Bool-cases, inr, inl,
  Option-cases, not, ap, sym, ◌∙◌, ◌≢◌,
}
use mathlib.Core.Path.{subst}

-- The bond stands for the bind's device and run, has its token, and is not on its way out.
pub record Admits (bind : BondBind) (bond : ServerBond) (r : Registry) : Type 0 where
  pub known : find (key_of bind) r.bonds ≡ some bond
  pub token : bond.token ≡ bind.token
  pub live : r.closing bond.id ≡ false

join-passes :
    (bind : BondBind) (known bond : ServerBond) (r : Registry)
    → (join bind known r).bond ≡ some bond
    → (bond_token_matches known.token bind.token ≡ true)
      × (r.closing known.id ≡ false)
      × (known ≡ bond)
unfolding join
join-passes bind known bond r h = ground arith

bond_token_matches→≡ : (a b : Bytes) → bond_token_matches a b ≡ true → a ≡ b
unfolding bond_token_matches
bond_token_matches→≡ a b h = text_eq→≡ a b (ground arith)

join-Admits :
    (bind : BondBind) (known bond : ServerBond) (r : Registry)
    → find (key_of bind) r.bonds ≡ some known
    → (join bind known r).bond ≡ some bond
    → Admits bind bond r
join-Admits bind known bond r e h =
    let (matches, live, same) = join-passes bind known bond r h in
    subst (λ (b : ServerBond). Admits bind b r) same
      (record {
        known = e;
        token = bond_token_matches→≡ known.token bind.token matches;
        live = live;
      })

claim-no_bond :
    (bind : BondBind) (r : Registry) (a : Answer) → (claim bind r).1 ≡ some a → a.bond ≡ none
unfolding claim
claim-no_bond bind r a h = ground arith

with_claim : Bool → Answer
with_claim matches = if not matches then refuse token_mismatch else wait_for nothing

with_claim-no_bond : (matches : Bool) → (with_claim matches).bond ≡ none
unfolding with_claim
with_claim-no_bond matches = ground arith

no_answer : (a : Answer) (bond : ServerBond) → a.bond ≡ none → a.bond ≢ some bond
no_answer a bond e f = cc

-- Before it claims, `acquireBond` answers with a bond only where its check has not found the server or the context
-- closed, and the bond stands in the registry for the bind's device and run, has the bind's token and is not closing.
pub acquire_claim-Admits :
    (stopped : Bool) (bind : BondBind) (r : Registry) (a : Answer) (bond : ServerBond)
    → (acquire_claim stopped bind r).1 ≡ some a
    → a.bond ≡ some bond
    → (stopped ≡ false) × Admits bind bond r
unfolding acquire_claim with_claim
acquire_claim-Admits stopped bind r a bond h b = elim (Bool-cases stopped) [
  | inl shut ↦
      let answer : some (refuse server_shutdown) ≡ some a = rw shut at h in absurd (ground arith)
  | inr unclosed ↦ elim (Option-cases (find (key_of bind) r.bonds)) [
    | inr (known, e) ↦
        let answer : some (join bind known r) ≡ some a = rw (unclosed, e, acquire_claim) at h in
        (unclosed, join-Admits bind known bond r e (ground arith))
    | inl nb ↦ elim (Option-cases (find (key_of bind) r.claims)) [
      | inr (token, e) ↦
          let matches = bond_token_matches token bind.token in
          let answer : some (with_claim matches) ≡ some a =
            rw (unclosed, nb, e, acquire_claim) at h in
          let same : with_claim matches ≡ a = ground arith in
          absurd (
            no_answer a bond (ap (λ (x : Answer). x.bond) (sym same) ∙ with_claim-no_bond matches)
              b)
      | inl nc ↦
          let answer : (claim bind r).1 ≡ some a = rw (unclosed, nb, nc, acquire_claim) at h in
          absurd (no_answer a bond (claim-no_bond bind r a answer) b)
    ]
  ]
]

find_first :
    (key : BondKey) (bond : ServerBond) (more : Keyed ServerBond)
    → find key ((key, bond) ∷ more) ≡ some bond
unfolding find
find_first key bond more = rw (key_eq_refl key) refl

-- A call that commits in a sound registry of an open server gets its own bond, which then is the only one of the
-- device: no other bond stands in its way.
pub acquire_commit-alone :
    (s : System) (bond : ServerBond) (run : Run) (rest : Keyed Run)
    → IsSound s
    → Pick (entry run) rest s.runs
    → run.retired ≡ true
    → s.registry.closed ≡ false
    → ((acquire_commit bond run.bind s.registry).1
        ≡ record { bond = some bond; typ = bind_config; text = config_text bond.config })
      × (find (key_of run.bind) (acquire_commit bond run.bind s.registry).0.bonds ≡ some bond)
      × (for_device run.bind.device_id (acquire_commit bond run.bind s.registry).0.bonds ≡ 1)
unfolding key_of
acquire_commit-alone s bond run rest v pick retired live =
    let key = key_of run.bind in
    let flags = s.registry.closing in
    let free = none_of_key s v run rest flags pick bond retired live in
    let e =
      committed-open bond run.bind s.registry live (find-of-for_key key s.registry.bonds free) in
    let found : find key ((key, bond) ∷ delete key s.registry.bonds) ≡ some bond =
      find_first key bond (delete key s.registry.bonds) in
    rw e (refl, found, joined_device s v run rest flags pick bond retired live)
