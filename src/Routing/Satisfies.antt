-- ===== src/Routing/Satisfies.antt =====
-- What it means that a rule applies to a request, category by category.
use tamizdat.Prelude.{true, false, some}
use tamizdat.Prelude.Text.{Holds, text_eq, has_text, trim_dot}
use tamizdat.Routing.Match.{
  Net, DomainMatcher, full_match, plain_match, suffix_match, keyword_match, regex_match, PortRange,
  CompiledRule, Request, port_in_ranges, domain_matches, any_domain, cidrs_contain,
}
use tamizdat.Routing.Matchers.{
  Some, here, there, EndsWith, text_eq_iff, contains_iff, suffix_matches_iff,
}
use tamizdat.Prelude.{
  List, Option, ◌≡◌, [], ℕ, ◌⊎◌, true, ◌≤◌, Bool, ◌∷◌, ◌↔◌, if◌then◌else◌, arith, Bool-cases, inl,
  sym, inr, refl,
}
use tamizdat.Prelude.Bytes.{Bytes}

-- A category that is empty, or whose list has a member that fits.
abbrev pub Category : {A : Type 0} → (A → Type 0) → List A → Type 0
Category {A} P xs = (xs ≡ []) ⊎ Some P xs

-- A rule without a network, with the request's, or with a comma and the request's as a part.
abbrev pub NetworkFits : Bytes → Bytes → Type 0
NetworkFits spec nw = (spec ≡ []) ⊎ ((spec ≡ nw) ⊎ (Holds (44 ∷ []) spec × Holds nw spec))

module _ {Re Prefix Addr : Type 0} (net : Net Re Prefix Addr) where
  abbrev pub DomainFits : Bytes → DomainMatcher Re → Type 0
  DomainFits h (full_match s) = h ≡ s
  DomainFits h (plain_match s) = h ≡ s
  DomainFits h (suffix_match s) = EndsWith s h
  DomainFits h (keyword_match s) = Holds s h
  DomainFits h (regex_match re) = net.match_string re h ≡ true

  -- There is an address, and the prefix contains it.
  abbrev pub PrefixFits : Option Addr → Prefix → Type 0
  PrefixFits o p = (ip : Addr) × (o ≡ some ip) × (net.prefix_contains p ip ≡ true)

  pub record Satisfies (r : CompiledRule Re Prefix) (req : Request Addr) : Type 0 where
    pub of_network : NetworkFits r.spec req.network
    pub of_inbound : Category (λ t. req.inbound_tag ≡ t) r.inbound_tags
    pub of_user : Category (λ u. req.user ≡ u) r.users
    pub of_port :
        Category
          (λ (p : PortRange). (p.lo ≤ req.target_port) × (req.target_port ≤ p.hi))
          r.port_ranges
    pub of_source : Category (PrefixFits req.source_ip) r.src_cidrs
    pub of_domain : Category (DomainFits (trim_dot (net.to_lower req.target_host))) r.domains
    pub of_target : Category (PrefixFits (net.parse_ip req.target_host)) r.cidrs

-- A test of a list that looks for a member which passes a test of members.
Some-cons :
    {A : Type 0} {P : A → Type 0} (x : A) (xs : List A) (t rest : Bool)
    → (t ≡ true) ↔ P x
    → (rest ≡ true) ↔ Some P xs
    → ((if t then true else rest) ≡ true) ↔ Some P (x ∷ xs)
Some-cons {A} {P} x xs true rest e f = (λ h. here (e.0 refl), λ s. refl)
Some-cons {A} {P} x xs false rest e f = (λ h. there (f.0 h), λ s. later s)
  where
    later : Some P (x ∷ xs) → rest ≡ true
    later (here p) = absurd (ground (arith, e.1 p))
    later (there s) = f.1 s

pub no_some : {A : Type 0} {P : A → Type 0} → Some P [] → {B : Type 0} → B
no_some s = elim s [ ]

pub has_text_iff :
    (text : Bytes) (ts : List Bytes) → (has_text text ts ≡ true) ↔ Some (λ t. text ≡ t) ts
unfolding has_text
has_text_iff text [] = (λ h. absurd (ground arith), λ s. no_some s)
has_text_iff text (t ∷ ts) = elim (Bool-cases (text_eq t text)) [
  | inl h ↦ rw h (λ k. here (sym ((text_eq_iff t text).0 h)), λ s. refl)
  | inr h ↦ rw h (
    λ k. there ((has_text_iff text ts).0 k),
    λ s. elim s [
      | here p ↦ absurd (ground (arith, (text_eq_iff t text).1 (sym p)))
      | there q ↦ (has_text_iff text ts).1 q
    ],
  )
]

pub port_in_ranges_iff :
    (p : ℕ) (rs : List PortRange)
    → (port_in_ranges p rs ≡ true) ↔ Some (λ (r : PortRange). (r.lo ≤ p) × (p ≤ r.hi)) rs
unfolding port_in_ranges
port_in_ranges_iff p [] = (λ h. absurd (ground arith), λ s. no_some s)
port_in_ranges_iff p (r ∷ rs) = Some-cons r rs _ _ (ground arith) (port_in_ranges_iff p rs)

module _ {Re Prefix Addr : Type 0} (net : Net Re Prefix Addr) where
  domain_matches_iff :
      (h : Bytes) (m : DomainMatcher Re) → (domain_matches net m h ≡ true) ↔ DomainFits net h m
  unfolding domain_matches
  domain_matches_iff h (full_match s) = text_eq_iff h s
  domain_matches_iff h (plain_match s) = text_eq_iff h s
  domain_matches_iff h (suffix_match s) = suffix_matches_iff s h
  domain_matches_iff h (keyword_match s) = contains_iff s h
  domain_matches_iff h (regex_match re) = (λ e. e, λ e. e)

  pub any_domain_iff :
      (ms : List (DomainMatcher Re)) (h : Bytes)
      → (any_domain net ms h ≡ true) ↔ Some (DomainFits net h) ms
  unfolding any_domain
  any_domain_iff [] h = (λ k. absurd (ground arith), λ s. no_some s)
  any_domain_iff (m ∷ ms) h = Some-cons m ms _ _ (domain_matches_iff h m) (any_domain_iff ms h)

  pub cidrs_contain_iff :
      (ps : List Prefix) (ip : Addr)
      → (cidrs_contain net ps ip ≡ true) ↔ Some (λ p. net.prefix_contains p ip ≡ true) ps
  unfolding cidrs_contain
  cidrs_contain_iff [] ip = (λ k. absurd (ground arith), λ s. no_some s)
  cidrs_contain_iff (p ∷ ps) ip = Some-cons p ps _ _ (λ e. e, λ e. e) (cidrs_contain_iff ps ip)
