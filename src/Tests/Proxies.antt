-- ===== src/Tests/Proxies.antt =====
-- Runs of backend/internal/identity/infrastructure/network/resolver.go over addresses kept as text.
use ai_portfolio_research_as.Prelude.{
  ◌≡◌, ◌↔◌, refl, Bool, true, false, ◌&&◌, List, [], ◌∷◌, Option, none, some, ok, err, ◌==◌,
}
use ai_portfolio_research_as.Text.{Bytes, codes}
use ai_portfolio_research_as.Identity.Network.{
  Netip, ClientNetworkRequest, invalid_security_config, parse_trusted_proxy_cidrs, new_resolver,
  resolve,
}
use ai_portfolio_research_as.Identity.Network.Sources.{IsSource, resolve_iff}

unfoldable begins : Bytes → Bytes → Bool
begins [] text = true
begins (_ ∷ _) [] = false
begins (a ∷ start) (b ∷ text) = a == b && begins start text

unfoldable some_text : Bytes → Option Bytes
some_text [] = none
some_text (c ∷ text) = some (c ∷ text)

abbrev net : Netip
net = record {
  Addr = Bytes;
  Prefix = Bytes;
  parse_addr = some_text;
  zone = λ a. [];
  unmap = λ a. a;
  parse_prefix = some_text;
  masked = λ p. p;
  contains = begins;
}

abbrev inside : List Bytes
inside = codes "10." ∷ codes "192.168." ∷ []

abbrev request : ClientNetworkRequest
request = record {
  direct_peer_ip = codes "10.0.0.1";
  forwarded_for = codes "6.6.6.6, 8.8.8.8 ,10.0.0.2";
}

runs :
    (parse_trusted_proxy_cidrs net (codes " 10., 192.168.") ≡ ok inside)
    × (parse_trusted_proxy_cidrs net (codes "10.,,") ≡ err invalid_security_config)
    × (new_resolver net inside ≡ ok inside)
    × (resolve net inside request ≡ ok (codes "8.8.8.8"))
    × (resolve net [] request ≡ ok (codes "10.0.0.1"))
unfolding begins some_text ai_portfolio_research_as.Text.split
    ai_portfolio_research_as.Text.Blank.is_blank ai_portfolio_research_as.Text.Trimming.trim_space
    ai_portfolio_research_as.Identity.Network.last_untrusted
    ai_portfolio_research_as.Identity.Network.each_part
    ai_portfolio_research_as.Identity.Network.cidr_of_part
    ai_portfolio_research_as.Identity.Network.parse_trusted_proxy_cidrs
    ai_portfolio_research_as.Identity.Network.prefix_of_cidr
    ai_portfolio_research_as.Identity.Network.new_resolver
    ai_portfolio_research_as.Identity.Network.is_trusted
    ai_portfolio_research_as.Identity.Network.parse_address
    ai_portfolio_research_as.Identity.Network.forwarded_address
    ai_portfolio_research_as.Identity.Network.resolve_forwarded
    ai_portfolio_research_as.Identity.Network.resolve
runs = (refl, refl, refl, refl, refl)

resolve_iff_example :
    (resolve net inside request ≡ ok (codes "8.8.8.8"))
    ↔ IsSource net inside request (codes "8.8.8.8")
resolve_iff_example = resolve_iff net inside request (codes "8.8.8.8")
