-- ===== src/Routing/FirstMatch.antt =====
-- The rules are tried in their order, and the first that matches wins.
use tamizdat.Routing.Match.{Net, CompiledRule, Request, matches}
use tamizdat.Routing.Dispatch.{first_rule, matches_any, first_rule_by_ip}
use tamizdat.Prelude.{
  Bool, List, Option, ◌≡◌, ◌++◌, false, ◌∷◌, All, ap, true, some, none, Bool-cases, inl, [], inr,
  refl,
}
use tamizdat.Prelude.Bytes.{Bytes}

-- A list of rules, looked through with a test: the first that passes gives the tag, those before it fail.
pub data First {A : Type 0} (test : A → Bool) (tag_of : A → Bytes) (rs : List A)
    : Option Bytes → Type 0 where
  at_rule :
      (before : List A) (r : A) (behind : List A)
      → rs ≡ before ++ r ∷ behind
      → All (λ (x : A). test x ≡ false) before
      → test r ≡ true
      → First test tag_of rs (some (tag_of r))
  nowhere : All (λ (x : A). test x ≡ false) rs → First test tag_of rs none

First-cons :
    {A : Type 0} (test : A → Bool) (tag_of : A → Bytes) (r : A) (rs : List A) (o : Option Bytes)
    → test r ≡ false
    → First test tag_of rs o
    → First test tag_of (r ∷ rs) o
First-cons test tag_of r rs o h (at_rule before q behind e all pass) =
    at_rule (r ∷ before) q behind (ap (λ t. r ∷ t) e) (h, all) pass
First-cons test tag_of r rs o h (nowhere all) = nowhere (h, all)

module _ {Re Prefix Addr : Type 0} (net : Net Re Prefix Addr) where
  -- The first pass finds the first rule that matches the request.
  pub first_rule-First :
      (rs : List (CompiledRule Re Prefix)) (req : Request Addr)
      → First (λ r. matches net r req) (λ r. r.tag) rs (first_rule net rs req)
  unfolding first_rule
  first_rule-First [] req = nowhere tt
  first_rule-First (r ∷ rs) req = elim (Bool-cases (matches net r req)) [
    | inl m ↦ rw m (at_rule [] r rs refl tt m)
    | inr m ↦
        rw m (First-cons (λ x. matches net x req) (λ x. x.tag) r rs _ m (first_rule-First rs req))
  ]

  -- The second pass finds the first rule that matches the request at one of the addresses.
  pub first_rule_by_ip-First :
      (rs : List (CompiledRule Re Prefix)) (req : Request Addr) (ips : List Addr)
      → First (λ r. matches_any net r req ips) (λ r. r.tag) rs (first_rule_by_ip net rs req ips)
  unfolding first_rule_by_ip
  first_rule_by_ip-First [] req ips = nowhere tt
  first_rule_by_ip-First (r ∷ rs) req ips = elim (Bool-cases (matches_any net r req ips)) [
    | inl m ↦ rw m (at_rule [] r rs refl tt m)
    | inr m ↦ rw m (
        First-cons (λ x. matches_any net x req ips) (λ x. x.tag) r rs _ m
          (first_rule_by_ip-First rs req ips))
  ]
