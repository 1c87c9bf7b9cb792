-- ===== src/Routing/Answers.antt =====
-- The order of the addresses in the resolver's answer does not change the route.
use tamizdat.Prelude.{true, false, Bool}
use tamizdat.Routing.Match.{Net, CompiledRule, Request, matches}
use tamizdat.Prelude.Text.{text_eq}
use tamizdat.Routing.Dispatch.{
  ip_if_non_match, ip_on_demand, Dispatcher, first_rule, matches_any, first_rule_by_ip, with_host,
  try_resolve_all, rule_tag, resolve,
}
use tamizdat.Prelude.{
  List, ◌∷◌, ◌≡◌, Option-cases, [], inl, refl, inr, ◌∙◌, ap, sym, Option, if◌then◌else◌, ◌||◌, none,
}
use tamizdat.Prelude.Bytes.{Bytes}

-- Two lists with the same members in another order, by exchanges of neighbours.
pub data Reordered {A : Type 0} : List A → List A → Type 0 where
  unchanged : {xs : List A} → Reordered xs xs
  behind_head : {x : A} {xs ys : List A} → Reordered xs ys → Reordered (x ∷ xs) (x ∷ ys)
  exchanged : {x y : A} {xs : List A} → Reordered (x ∷ y ∷ xs) (y ∷ x ∷ xs)
  in_steps : {xs ys zs : List A} → Reordered xs ys → Reordered ys zs → Reordered xs zs

module _ {Re Prefix Addr : Type 0} (net : Net Re Prefix Addr) where
  matches_any_cons :
      (r : CompiledRule Re Prefix) (req : Request Addr) (a : Addr) (ips others : List Addr)
      → matches_any net r req ips ≡ matches_any net r req others
      → matches_any net r req (a ∷ ips) ≡ matches_any net r req (a ∷ others)
  unfolding matches_any
  matches_any_cons r req a ips others e =
      ap (λ (t : Bool). if matches net r (with_host net req a) then true else t) e

  matches_any_exchange :
      (r : CompiledRule Re Prefix) (req : Request Addr) (a b : Addr) (ips : List Addr)
      → matches_any net r req (a ∷ b ∷ ips) ≡ matches_any net r req (b ∷ a ∷ ips)
  unfolding matches_any
  matches_any_exchange r req a b ips =
      either_way (matches net r (with_host net req a)) (matches net r (with_host net req b))
        (matches_any net r req ips)
    where
      either_way :
          (x y z : Bool)
          → (if x then true else (if y then true else z))
            ≡ (if y then true else (if x then true else z))
      either_way true true z = refl
      either_way true false z = refl
      either_way false y z = refl

  matches_any-Reordered :
      (r : CompiledRule Re Prefix) (req : Request Addr) {ips others : List Addr}
      → Reordered ips others
      → matches_any net r req ips ≡ matches_any net r req others
  matches_any-Reordered r req unchanged = refl
  matches_any-Reordered r req (behind_head {x} {xs} {ys} p) =
      matches_any_cons r req x xs ys (matches_any-Reordered r req p)
  matches_any-Reordered r req (exchanged {x} {y} {xs}) = matches_any_exchange r req x y xs
  matches_any-Reordered r req (in_steps p q) =
      matches_any-Reordered r req p ∙ matches_any-Reordered r req q

  first_rule_by_ip-Reordered :
      (rs : List (CompiledRule Re Prefix)) (req : Request Addr) (ips others : List Addr)
      → Reordered ips others
      → first_rule_by_ip net rs req ips ≡ first_rule_by_ip net rs req others
  unfolding first_rule_by_ip
  first_rule_by_ip-Reordered [] req ips others p = refl
  first_rule_by_ip-Reordered (r ∷ rs) req ips others p =
      rw (matches_any-Reordered r req p, first_rule_by_ip-Reordered rs req ips others p)

  module _ {Outbound : Type 0} (d : Dispatcher Re Prefix Addr Outbound)
      (other : Bytes → List Addr) where
    try_resolve_all-Reordered :
        (host : Bytes)
        → ((h : Bytes) → Reordered (d.lookup_ip_addr h) (other h))
        → (rs : List (CompiledRule Re Prefix)) (req : Request Addr)
        → first_rule_by_ip net rs req (try_resolve_all net d host)
          ≡ first_rule_by_ip net rs req
              (try_resolve_all net (record d { lookup_ip_addr = other }) host)
    unfolding try_resolve_all
    try_resolve_all-Reordered [] p rs req = refl
    try_resolve_all-Reordered (c ∷ host) p rs req = elim (Option-cases (net.parse_ip (c ∷ host))) [
      | inl h ↦ rw (h, try_resolve_all) (first_rule_by_ip-Reordered rs req _ _ (p (c ∷ host)))
      | inr (ip, h) ↦ rw (h, try_resolve_all)
    ]

    rule_tag-Reordered :
        (req : Request Addr)
        → ((h : Bytes) → Reordered (d.lookup_ip_addr h) (other h))
        → rule_tag net d req ≡ rule_tag net (record d { lookup_ip_addr = other }) req
    unfolding rule_tag
    rule_tag-Reordered req p = elim (Option-cases (first_rule net d.rules req)) [
      | inr (tag, h) ↦ rw (h, rule_tag)
      | inl h ↦
          rw (h, rule_tag)
            (ap
              (λ (o : Option Bytes).
                if text_eq d.domain_strategy ip_if_non_match
                  || text_eq d.domain_strategy ip_on_demand
                then o
                else none)
              (try_resolve_all-Reordered req.target_host p d.rules req))
    ]

    -- With a resolver that gives every host the same addresses in any other order, `Resolve` gives the same
    -- tag and outbound.
    pub resolve-Reordered :
        (req : Request Addr)
        → ((h : Bytes) → Reordered (d.lookup_ip_addr h) (other h))
        → resolve net d req ≡ resolve net (record d { lookup_ip_addr = other }) req
    unfolding resolve
    resolve-Reordered req p = elim (Option-cases (rule_tag net d req)) [
      | inl h ↦ rw (h, sym (rule_tag-Reordered req p) ∙ h, resolve)
      | inr (tag, h) ↦ rw (h, sym (rule_tag-Reordered req p) ∙ h, resolve)
    ]
