-- ===== src/Routing/Tests.antt =====
-- A dispatcher with three rules, over addresses that are numbers and prefixes that are single addresses.
use tamizdat.Prelude.{true, false, ℕ, ◌≡◌, ◌∷◌, ◌==◌, [], ◌↔◌, refl, none, length, some, get_or}
use tamizdat.Routing.Match.{Net, suffix_match, CompiledRule, Request, matches, suffix_matches}
use tamizdat.Routing.Matchers.{EndsWith, suffix_matches_iff}
use tamizdat.Routing.Satisfies.{Satisfies}
use tamizdat.Routing.Decision.{matches_iff}
use tamizdat.Routing.Dispatch.{Dispatcher, ip_if_non_match, resolve}
use tamizdat.Routing.Answers.{exchanged, resolve-Reordered}

-- No text is an address, no byte is a capital, and the only expression matches all.
abbrev net : Net ℕ ℕ ℕ
net = record {
  match_string = λ re h. true;
  prefix_contains = λ p ip. p == ip;
  parse_ip = λ h. none;
  to_lower = λ h. h;
  ip_string = λ ip. ip ∷ [];
}

-- As above, where a text of one byte is the address of that number.
abbrev short_net : Net ℕ ℕ ℕ
short_net = record {
  match_string = λ re h. true;
  prefix_contains = λ p ip. p == ip;
  parse_ip = λ h. elim (length h == 1) [ true ↦ some (get_or h 0 0) | false ↦ none ];
  to_lower = λ h. h;
  ip_string = λ ip. ip ∷ [];
}

abbrev no_rule : CompiledRule ℕ ℕ
no_rule = record {
  tag = 1 ∷ [];
  domains = [];
  cidrs = [];
  src_cidrs = [];
  port_ranges = [];
  spec = [];
  inbound_tags = [];
  users = [];
}

-- "x.y" under "y", at the ports 80 to 90.
abbrev web_rule : CompiledRule ℕ ℕ
web_rule = record no_rule {
  tag = 2 ∷ [];
  domains = suffix_match (121 ∷ []) ∷ [];
  port_ranges = record { lo = 80; hi = 90 } ∷ [];
}

abbrev block_rule : CompiledRule ℕ ℕ
block_rule = record no_rule { tag = 3 ∷ []; cidrs = 9 ∷ [] }

abbrev request : Request ℕ
request = record {
  network = 116 ∷ [];
  target_host = 120 ∷ 46 ∷ 121 ∷ 46 ∷ [];
  target_port = 80;
  source_ip = none;
  inbound_tag = [];
  user = [];
}

abbrev dispatcher : Dispatcher ℕ ℕ ℕ ℕ
dispatcher = record {
  rules = block_rule ∷ web_rule ∷ [];
  default_outbound = [];
  first_outbound_tag = 7 ∷ [];
  outbounds = λ tag. some (get_or tag 0 0);
  domain_strategy = ip_if_non_match;
  lookup_ip_addr = λ h. 5 ∷ 9 ∷ [];
}

web_request : matches net web_rule request ≡ true
unfolding matches
web_request = refl

other_port : matches net web_rule (record request { target_port = 91 }) ≡ false
unfolding matches
other_port = refl

by_domain : resolve short_net dispatcher request ≡ (2 ∷ [], some 2)
unfolding resolve
by_domain = refl

by_second_answer :
    resolve short_net dispatcher (record request { target_port = 91 }) ≡ (3 ∷ [], some 3)
unfolding resolve
by_second_answer = refl

by_default : resolve net dispatcher (record request { target_port = 91 }) ≡ (7 ∷ [], some 7)
unfolding resolve
by_default = refl

suffix_matches_iff_example :
    (suffix_matches (121 ∷ []) (120 ∷ 46 ∷ 121 ∷ []) ≡ true)
    ↔ EndsWith (121 ∷ []) (120 ∷ 46 ∷ 121 ∷ [])
suffix_matches_iff_example = suffix_matches_iff (121 ∷ []) (120 ∷ 46 ∷ 121 ∷ [])

matches_iff_example : (matches net web_rule request ≡ true) ↔ Satisfies net web_rule request
matches_iff_example = matches_iff net web_rule request

resolve-Reordered_example :
    resolve short_net dispatcher (record request { target_port = 91 })
    ≡ resolve short_net
        (record dispatcher { lookup_ip_addr = λ h. 9 ∷ 5 ∷ [] })
        (record request { target_port = 91 })
resolve-Reordered_example =
    resolve-Reordered short_net dispatcher (λ h. 9 ∷ 5 ∷ []) (record request { target_port = 91 })
      (λ h. exchanged)
