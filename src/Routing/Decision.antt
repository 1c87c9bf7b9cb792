-- ===== src/Routing/Decision.antt =====
-- `Match` decides the conjunction of the categories.
use tamizdat.Prelude.{
  true, false, List, ◌≡◌, Bool, not, Option, ◌↔◌, ◌&&◌, [], ◌∷◌, arith, inl, Bool-cases, ◌≢◌, inr,
  some, refl, none,
}
use tamizdat.Routing.Match.{
  Net, CompiledRule, Request, network_matches, contain_some, is_nil, matches,
}
use tamizdat.Prelude.{true, false}
use tamizdat.Routing.Matchers.{Some, text_eq_iff, contains_iff, here, there}
use tamizdat.Prelude.Text.{text_eq, trim_dot}
use tamizdat.Routing.Satisfies.{
  Category, NetworkFits, PrefixFits, Satisfies, has_text_iff, port_in_ranges_iff, any_domain_iff,
  cidrs_contain_iff, no_some,
}
use tamizdat.Prelude.Bytes.{Bytes}

-- The guard of a category: it refuses when the list is not empty and no member fits.
Category-iff :
    {A : Type 0} {P : A → Type 0} (xs : List A) (t : Bool)
    → (t ≡ true) ↔ Some P xs
    → ((not (is_nil xs) && not t) ≡ false) ↔ Category P xs
Category-iff [] t e = (λ h. inl refl, λ c. refl)
Category-iff {A} {P} (x ∷ xs) t e = (
  λ h. inr (e.0 (ground arith)),
  λ c. elim c [ inl q ↦ absurd (cons_ne q) | inr s ↦ ground (arith, e.1 s) ],
)
  where
    cons_ne : x ∷ xs ≢ []
    cons_ne q = ground arith

-- The guard of the network.
network_iff :
    (spec nw : Bytes)
    → ((not (text_eq spec []) && not (network_matches spec nw)) ≡ false) ↔ NetworkFits spec nw
unfolding network_matches
network_iff spec nw = (there_fits, fits_back)
  where
    there_fits :
        (not (text_eq spec []) && not (network_matches spec nw)) ≡ false → NetworkFits spec nw
    there_fits h = elim (Bool-cases (text_eq spec [])) [
      | inl e ↦ inl ((text_eq_iff spec []).0 e)
      | inr e ↦ inr (elim (Bool-cases (text_eq spec nw)) [
        | inl f ↦ inl ((text_eq_iff spec nw).0 f)
        | inr f ↦ inr (
          (contains_iff (44 ∷ []) spec).0 (ground arith),
          (contains_iff nw spec).0 (ground arith),
        )
      ])
    ]

    fits_back :
        NetworkFits spec nw → (not (text_eq spec []) && not (network_matches spec nw)) ≡ false
    fits_back c = elim c [
      | inl q ↦ ground (arith, (text_eq_iff spec []).1 q)
      | inr (inl q) ↦ ground (arith, (text_eq_iff spec nw).1 q)
      | inr (inr (a, b)) ↦
          ground (arith, (contains_iff (44 ∷ []) spec).1 a, (contains_iff nw spec).1 b)
    ]

module _ {Re Prefix Addr : Type 0} (net : Net Re Prefix Addr) where
  contain_some_iff :
      (ps : List Prefix) (o : Option Addr)
      → (contain_some net ps o ≡ true) ↔ Some (PrefixFits net o) ps
  unfolding contain_some
  contain_some_iff ps none = (λ h. absurd (ground arith), λ s. nobody ps s)
    where
      nobody : (qs : List Prefix) → Some (PrefixFits net none) qs → false ≡ true
      nobody [] s = no_some s
      nobody (q ∷ qs) (here (ip, e, m)) = absurd (ground arith)
      nobody (q ∷ qs) (there s) = nobody qs s
  contain_some_iff ps (some ip) = (
    λ h. wrap ps ((cidrs_contain_iff net ps ip).0 h),
    λ s. (cidrs_contain_iff net ps ip).1 (unwrap ps s),
  )
    where
      wrap :
          (qs : List Prefix)
          → Some (λ p. net.prefix_contains p ip ≡ true) qs
          → Some (PrefixFits net (some ip)) qs
      wrap [] s = no_some s
      wrap (q ∷ qs) (here m) = here (ip, refl, m)
      wrap (q ∷ qs) (there s) = there (wrap qs s)

      unwrap :
          (qs : List Prefix)
          → Some (PrefixFits net (some ip)) qs
          → Some (λ p. net.prefix_contains p ip ≡ true) qs
      unwrap [] s = no_some s
      unwrap (q ∷ qs) (here (other, e, m)) = here (ground arith)
      unwrap (q ∷ qs) (there s) = there (unwrap qs s)

  -- A rule matches a request exactly when every category of it is empty or has a member that fits.
  pub matches_iff :
      (r : CompiledRule Re Prefix) (req : Request Addr)
      → (matches net r req ≡ true) ↔ Satisfies net r req
  unfolding matches
  matches_iff r req = (
    λ h. record {
      of_network = (network_iff r.spec req.network).0 (ground arith);
      of_inbound =
          (Category-iff r.inbound_tags _ (has_text_iff req.inbound_tag r.inbound_tags)).0
            (ground arith);
      of_user = (Category-iff r.users _ (has_text_iff req.user r.users)).0 (ground arith);
      of_port =
          (Category-iff r.port_ranges _ (port_in_ranges_iff req.target_port r.port_ranges)).0
            (ground arith);
      of_source =
          (Category-iff r.src_cidrs _ (contain_some_iff r.src_cidrs req.source_ip)).0
            (ground arith);
      of_domain =
          (Category-iff r.domains _
              (any_domain_iff net r.domains (trim_dot (net.to_lower req.target_host)))).0
            (ground arith);
      of_target =
          (Category-iff r.cidrs _ (contain_some_iff r.cidrs (net.parse_ip req.target_host))).0
            (ground arith);
    },
    λ s. rw (
      (network_iff r.spec req.network).1 s.of_network,
      (Category-iff r.inbound_tags _ (has_text_iff req.inbound_tag r.inbound_tags)).1 s.of_inbound,
      (Category-iff r.users _ (has_text_iff req.user r.users)).1 s.of_user,
      (Category-iff r.port_ranges _ (port_in_ranges_iff req.target_port r.port_ranges)).1 s.of_port,
      (Category-iff r.src_cidrs _ (contain_some_iff r.src_cidrs req.source_ip)).1 s.of_source,
      (Category-iff r.domains _
            (any_domain_iff net r.domains (trim_dot (net.to_lower req.target_host)))).1
          s.of_domain,
      (Category-iff r.cidrs _ (contain_some_iff r.cidrs (net.parse_ip req.target_host))).1
          s.of_target,
      matches,
    ),
  )
