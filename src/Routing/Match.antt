-- ===== src/Routing/Match.antt =====
-- The matchers of a compiled rule and `CompiledRule.Match` of node/rules.go. The types `Re`, `Prefix` and `Addr`
-- are those of the packages regexp, net/netip and net, whose calls are the record `Net`.
use tamizdat.Prelude.Text.{text_eq, contains, trim_dot, has_text}
use tamizdat.Prelude.Bytes.{Bytes}
use tamizdat.Prelude.{
  ℕ, List, Bool, Option, [], if◌then◌else◌, false, true, ◌||◌, ltb, ◌∷◌, some, not, ◌&&◌, length,
  leb, none, ◌+◌, get_or, ◌-◌, ◌==◌, drop,
}

-- What the matchers call of other packages: (*Regexp).MatchString, netip.Prefix.Contains behind
-- netip.AddrFromSlice and Unmap, net.ParseIP, strings.ToLower and net.IP.String.
pub record Net (Re Prefix Addr : Type 0) : Type 0 where
  pub match_string : Re → Bytes → Bool
  pub prefix_contains : Prefix → Addr → Bool
  pub parse_ip : Bytes → Option Addr
  pub to_lower : Bytes → Bytes
  pub ip_string : Addr → Bytes

-- `domainMatcher`.
pub data DomainMatcher (Re : Type 0) : Type 0 where
  full_match : Bytes → DomainMatcher Re
  plain_match : Bytes → DomainMatcher Re
  suffix_match : Bytes → DomainMatcher Re
  keyword_match : Bytes → DomainMatcher Re
  regex_match : Re → DomainMatcher Re

-- `portRange`.
pub record PortRange : Type 0 where
  pub lo : ℕ
  pub hi : ℕ

-- `Request`. A nil SourceIP is `none`.
pub record Request (Addr : Type 0) : Type 0 where
  pub network : Bytes
  pub target_host : Bytes
  pub target_port : ℕ
  pub source_ip : Option Addr
  pub inbound_tag : Bytes
  pub user : Bytes

-- `CompiledRule`. The field `spec` is `network`.
pub record CompiledRule (Re Prefix : Type 0) : Type 0 where
  pub tag : Bytes
  pub domains : List (DomainMatcher Re)
  pub cidrs : List Prefix
  pub src_cidrs : List Prefix
  pub port_ranges : List PortRange
  pub spec : Bytes
  pub inbound_tags : List Bytes
  pub users : List Bytes

-- `networkMatches`. The comma is 44.
unfoldable pub network_matches : Bytes → Bytes → Bool
unfolding text_eq contains
network_matches spec nw =
    text_eq spec [] || (text_eq spec nw || (contains (44 ∷ []) spec && contains nw spec))

-- `suffixMatch.match`. The dot is 46.
unfoldable pub suffix_matches : Bytes → Bytes → Bool
unfolding text_eq
suffix_matches s h =
    if text_eq h s
    then true
    else if ltb (length h) (length s + 1)
    then false
    else if not (get_or h (length h - length s - 1) 0 == 46)
    then false
    else text_eq (drop (length h - length s) h) s

-- `portInRanges`.
unfoldable pub port_in_ranges : ℕ → List PortRange → Bool
port_in_ranges p [] = false
port_in_ranges p (r ∷ rs) = if leb r.lo p && leb p r.hi then true else port_in_ranges p rs

-- `len(xs) == 0`.
abbrev pub is_nil {ℓ} : {A : Type ℓ} → List A → Bool
is_nil [] = true
is_nil (x ∷ xs) = false

module _ {Re Prefix Addr : Type 0} (net : Net Re Prefix Addr) where
  -- The methods `match`.
  unfoldable pub domain_matches : DomainMatcher Re → Bytes → Bool
  unfolding text_eq suffix_matches contains
  domain_matches (full_match s) h = text_eq h s
  domain_matches (plain_match s) h = text_eq h s
  domain_matches (suffix_match s) h = suffix_matches s h
  domain_matches (keyword_match s) h = contains s h
  domain_matches (regex_match re) h = net.match_string re h

  unfoldable pub any_domain : List (DomainMatcher Re) → Bytes → Bool
  unfolding domain_matches
  any_domain [] h = false
  any_domain (m ∷ ms) h = if domain_matches m h then true else any_domain ms h

  -- `cidrsContain`.
  unfoldable pub cidrs_contain : List Prefix → Addr → Bool
  cidrs_contain [] ip = false
  cidrs_contain (p ∷ ps) ip = if net.prefix_contains p ip then true else cidrs_contain ps ip

  -- `cidrsContain` of an address that may be nil.
  unfoldable pub contain_some : List Prefix → Option Addr → Bool
  unfolding cidrs_contain
  contain_some ps none = false
  contain_some ps (some ip) = cidrs_contain ps ip

  -- `Match`: each guard of the code, in its order.
  unfoldable pub matches : CompiledRule Re Prefix → Request Addr → Bool
  unfolding network_matches has_text port_in_ranges contain_some any_domain trim_dot
  matches r req =
      if not (text_eq r.spec []) && not (network_matches r.spec req.network)
      then false
      else if not (is_nil r.inbound_tags) && not (has_text req.inbound_tag r.inbound_tags)
      then false
      else if not (is_nil r.users) && not (has_text req.user r.users)
      then false
      else if not (is_nil r.port_ranges) && not (port_in_ranges req.target_port r.port_ranges)
      then false
      else if not (is_nil r.src_cidrs) && not (contain_some r.src_cidrs req.source_ip)
      then false
      else if not (is_nil r.domains)
          && not (any_domain r.domains (trim_dot (net.to_lower req.target_host)))
      then false
      else if not (is_nil r.cidrs) && not (contain_some r.cidrs (net.parse_ip req.target_host))
      then false
      else true
