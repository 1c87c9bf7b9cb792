-- ===== src/Routing/Dispatch.antt =====
-- node/dispatcher.go: `ResolveRule` and `Resolve`. An outbound is a value of any type; the map of outbounds
-- and the resolver `tryResolveAllFunc`, or the system's, are functions.
use tamizdat.Prelude.Text.{text_eq}
use tamizdat.Routing.Match.{Net, CompiledRule, Request, matches}
use tamizdat.Prelude.{List, Option, ◌∷◌, none, some, [], if◌then◌else◌, ◌||◌, Bool, false, true}
use tamizdat.Prelude.Bytes.{Bytes}

-- `Dispatcher`, with the resolver of the process.
pub record Dispatcher (Re Prefix Addr Outbound : Type 0) : Type 0 where
  pub rules : List (CompiledRule Re Prefix)
  pub default_outbound : Bytes
  pub first_outbound_tag : Bytes
  pub outbounds : Bytes → Option Outbound
  pub domain_strategy : Bytes
  pub lookup_ip_addr : Bytes → List Addr

-- "IPIfNonMatch" and "IPOnDemand".
abbrev pub ip_if_non_match : Bytes
ip_if_non_match = 73 ∷ 80 ∷ 73 ∷ 102 ∷ 78 ∷ 111 ∷ 110 ∷ 77 ∷ 97 ∷ 116 ∷ 99 ∷ 104 ∷ []

abbrev pub ip_on_demand : Bytes
ip_on_demand = 73 ∷ 80 ∷ 79 ∷ 110 ∷ 68 ∷ 101 ∷ 109 ∷ 97 ∷ 110 ∷ 100 ∷ []

module _ {Re Prefix Addr : Type 0} (net : Net Re Prefix Addr) where
  -- The copy `alt` of the request.
  abbrev pub with_host : Request Addr → Addr → Request Addr
  with_host req ip = record req { target_host = net.ip_string ip }

  -- The loop over the rules.
  unfoldable pub first_rule : List (CompiledRule Re Prefix) → Request Addr → Option Bytes
  unfolding matches
  first_rule [] req = none
  first_rule (r ∷ rs) req = if matches net r req then some r.tag else first_rule rs req

  -- The inner loop, over the addresses.
  unfoldable pub matches_any : CompiledRule Re Prefix → Request Addr → List Addr → Bool
  unfolding matches
  matches_any r req [] = false
  matches_any r req (ip ∷ ips) =
      if matches net r (with_host req ip) then true else matches_any r req ips

  -- The outer loop of the second pass.
  unfoldable pub first_rule_by_ip :
      List (CompiledRule Re Prefix) → Request Addr → List Addr → Option Bytes
  unfolding matches_any
  first_rule_by_ip [] req ips = none
  first_rule_by_ip (r ∷ rs) req ips =
      if matches_any r req ips then some r.tag else first_rule_by_ip rs req ips

  module _ {Outbound : Type 0} (d : Dispatcher Re Prefix Addr Outbound) where
    -- `tryResolveAll`.
    unfoldable pub try_resolve_all : Bytes → List Addr
    try_resolve_all [] = []
    try_resolve_all (c ∷ host) = elim (net.parse_ip (c ∷ host)) [
      | some ip ↦ ip ∷ []
      | none ↦ d.lookup_ip_addr (c ∷ host)
    ]

    -- The tag that `ResolveRule` finds, or `none` for its false.
    unfoldable pub rule_tag : Request Addr → Option Bytes
    unfolding first_rule first_rule_by_ip try_resolve_all text_eq
    rule_tag req = elim (first_rule d.rules req) [
      | some tag ↦ some tag
      | none ↦
          if text_eq d.domain_strategy ip_if_non_match || text_eq d.domain_strategy ip_on_demand
          then first_rule_by_ip d.rules req (try_resolve_all req.target_host)
          else none
    ]

    -- `Resolve`: the tag, and its outbound or `none` for nil.
    unfoldable pub resolve : Request Addr → Bytes × Option Outbound
    unfolding rule_tag text_eq
    resolve req = elim (rule_tag req) [
      | some tag ↦ (tag, d.outbounds tag)
      | none ↦
          let tag =
            if text_eq d.default_outbound [] then d.first_outbound_tag else d.default_outbound in
          (tag, d.outbounds tag)
    ]
