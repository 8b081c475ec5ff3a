-- ===== src/Identity/Network.antt =====
-- backend/internal/identity/infrastructure/network/resolver.go: the address of a client behind
-- trusted proxies. Go's package net/netip is a parameter.
pub mod Sources
use ai_portfolio_research_as.Prelude.{
  Bool, true, false, not, ◌||◌, List, [], ◌∷◌, Option, none, some, Result, ok, err, fail_if, ◌>>=◌,
  ◌>>◌, ltb, length, if◌then◌else◌,
}
use ai_portfolio_research_as.Text.{Bytes, is_empty, split}
use ai_portfolio_research_as.Text.Blank.{is_blank}
use ai_portfolio_research_as.Text.Trimming.{trim_space}

pub data NetworkError : Type 0 where
  invalid_security_config client_identity_rejected not_an_address : NetworkError

pub record ClientNetworkRequest : Type 0 where
  pub direct_peer_ip : Bytes
  pub forwarded_for : Bytes

-- What the resolver calls of package net/netip: `none` is its error.
pub record Netip : Type 1 where
  pub Addr : Type 0
  pub Prefix : Type 0
  pub parse_addr : Bytes → Option Addr
  pub zone : Addr → Bytes
  pub unmap : Addr → Addr
  pub parse_prefix : Bytes → Option Prefix
  pub masked : Prefix → Prefix
  pub contains : Prefix → Addr → Bool

abbrev pub or_error : {A : Type 0} → NetworkError → Option A → Result NetworkError A
or_error code none = err code
or_error code (some value) = ok value

-- the loop over `addresses` from the last index down, which passes over trusted addresses
abbrev pub last_or : {A : Type 0} → (A → Bool) → A → Option A → Option A
last_or trusted address (some later) = some later
last_or trusted address none = if trusted address then none else some address

unfoldable pub last_untrusted : {A : Type 0} → (A → Bool) → List A → Option A
last_untrusted trusted [] = none
last_untrusted trusted (address ∷ later) = last_or trusted address (last_untrusted trusted later)

abbrev pub forget : {A : Type 0} → NetworkError → Result NetworkError A → Result NetworkError A
forget code (ok value) = ok value
forget code (err _) = err code

-- a loop that appends the result of each part, and stops at the first error
unfoldable pub each_part :
    {A : Type 0} → (Bytes → Result NetworkError A) → List Bytes → Result NetworkError (List A)
each_part read [] = ok []
each_part read (part ∷ parts) =
    read part >>= λ value. each_part read parts >>= λ values. ok (value ∷ values)

module _ (net : Netip) where
  unfoldable pub cidr_of_part : Bytes → Result NetworkError Bytes
  cidr_of_part part =
      let trimmed = trim_space part in
      fail_if (is_empty trimmed) invalid_security_config
      >> or_error invalid_security_config (net.parse_prefix trimmed)
      >>= λ _. ok trimmed

  unfoldable pub parse_trusted_proxy_cidrs : Bytes → Result NetworkError (List Bytes)
  parse_trusted_proxy_cidrs text =
      if is_blank text then ok [] else each_part cidr_of_part (split text b',')

  unfoldable pub prefix_of_cidr : Bytes → Result NetworkError net.Prefix
  prefix_of_cidr text =
      or_error invalid_security_config (net.parse_prefix (trim_space text)) >>= λ prefix.
      ok (net.masked prefix)

  -- the trusted prefixes of a `Resolver`
  unfoldable pub new_resolver : List Bytes → Result NetworkError (List net.Prefix)
  new_resolver cidrs = each_part prefix_of_cidr cidrs

  unfoldable pub is_trusted : List net.Prefix → net.Addr → Bool
  is_trusted [] address = false
  is_trusted (prefix ∷ prefixes) address =
      net.contains prefix address || is_trusted prefixes address

  unfoldable pub parse_address : Bytes → Result NetworkError net.Addr
  parse_address text = or_error not_an_address (net.parse_addr text) >>= λ address.
      fail_if (not (is_empty (net.zone address))) client_identity_rejected >> ok (net.unmap address)

  unfoldable pub forwarded_address : Bytes → Result NetworkError net.Addr
  forwarded_address part = forget client_identity_rejected (parse_address (trim_space part))

  abbrev pub no_prefixes : List net.Prefix → Bool
  no_prefixes [] = true
  no_prefixes (_ ∷ _) = false

  -- `Resolve` for a peer that is a trusted proxy
  unfoldable pub resolve_forwarded : List net.Prefix → Bytes → Result NetworkError net.Addr
  resolve_forwarded trusted forwarded_for =
      fail_if (is_empty forwarded_for || ltb 4096 (length forwarded_for)) client_identity_rejected
      >> each_part forwarded_address (split forwarded_for b',')
      >>= λ addresses.
          or_error client_identity_rejected (last_untrusted (is_trusted trusted) addresses)

  unfoldable pub resolve : List net.Prefix → ClientNetworkRequest → Result NetworkError net.Addr
  resolve trusted request =
      forget client_identity_rejected (parse_address request.direct_peer_ip) >>= λ direct.
      if no_prefixes trusted || not (is_trusted trusted direct)
      then ok direct
      else resolve_forwarded trusted request.forwarded_for
