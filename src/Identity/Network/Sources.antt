-- ===== src/Identity/Network/Sources.antt =====
-- Which address `Resolve` of backend/internal/identity/infrastructure/network/resolver.go answers.
use ai_portfolio_research_as.Prelude.{
  ◌≡◌, ◌≢◌, ◌≤◌, ◌↔◌, ◌⊎◌, inl, inr, refl, sym, ap, ◌∙◌, arith, Bool, Bool-cases, true, false, not,
  ◌||◌, List, [], ◌∷◌, ◌++◌, Option, none, some, Result, ok, err, >>=-eq-ok, fail_if, ◌>>◌, ltb,
  if◌then◌else◌, length, All,
}
use ai_portfolio_research_as.Text.{Bytes, is_empty, split}
use ai_portfolio_research_as.Identity.Network.{
  NetworkError, ClientNetworkRequest, Netip, last_or, last_untrusted, each_part, is_trusted,
  parse_address, forwarded_address, resolve_forwarded, resolve, or_error, forget, no_prefixes,
  client_identity_rejected,
}

-- In a list of addresses, one that is not trusted with trusted ones alone after it.
pub record IsLastUntrusted {A : Type 0} (trusted : A → Bool) (addresses : List A) (address : A)
    : Type 0 where
  pub claimed : List A
  pub proxies : List A
  pub shown : addresses ≡ claimed ++ (address ∷ proxies)
  pub stranger : trusted address ≡ false
  pub known : All (λ a. trusted a ≡ true) proxies

module _ {A : Type 0} (trusted : A → Bool) where
  last_or-none :
      (a : A) (o : Option A) → last_or trusted a o ≡ none → (trusted a ≡ true) × (o ≡ none)
  last_or-none a (some b) h = cc
  last_or-none a none h = ground arith

  last_or-some :
      (a : A) (o : Option A) (b : A)
      → last_or trusted a o ≡ some b
      → (o ≡ some b) ⊎ ((o ≡ none) × (a ≡ b) × (trusted a ≡ false))
  last_or-some a (some c) b h = inl h
  last_or-some a none b h = ground arith

  last_untrusted-none :
      (addresses : List A)
      → last_untrusted trusted addresses ≡ none
      → All (λ a. trusted a ≡ true) addresses
  unfolding last_untrusted
  last_untrusted-none [] h = tt
  last_untrusted-none (a ∷ later) h =
      let (t, rest) = last_or-none a (last_untrusted trusted later) h in
      (t, last_untrusted-none later rest)

  last_untrusted-some :
      (addresses : List A) (address : A)
      → last_untrusted trusted addresses ≡ some address
      → IsLastUntrusted trusted addresses address
  unfolding last_untrusted
  last_untrusted-some [] address h = cc
  last_untrusted-some (a ∷ later) address h =
      elim (last_or-some a (last_untrusted trusted later) address h) [
        | inl found ↦
            let i = last_untrusted-some later address found in
            record {
              claimed = a ∷ i.claimed;
              proxies = i.proxies;
              shown = ap (λ (l : List A). a ∷ l) i.shown;
              stranger = i.stranger;
              known = i.known;
            }
        | inr (no_more, same, s) ↦ record {
          claimed = [];
          proxies = later;
          shown = ap (λ (b : A). b ∷ later) same;
          stranger = sym (ap trusted same) ∙ s;
          known = last_untrusted-none later no_more;
        }
      ]

  last_untrusted-trusted :
      (addresses : List A)
      → All (λ a. trusted a ≡ true) addresses
      → last_untrusted trusted addresses ≡ none
  unfolding last_untrusted
  last_untrusted-trusted [] h = refl
  last_untrusted-trusted (a ∷ later) h = rw (last_untrusted-trusted later h.1) (rw h.0 refl)

  last_untrusted-append :
      (claimed proxies : List A) (address : A)
      → trusted address ≡ false
      → All (λ a. trusted a ≡ true) proxies
      → last_untrusted trusted (claimed ++ (address ∷ proxies)) ≡ some address
  unfolding last_untrusted
  last_untrusted-append [] proxies address s k = rw (last_untrusted-trusted proxies k) (rw s refl)
  last_untrusted-append (a ∷ claimed) proxies address s k =
      rw (last_untrusted-append claimed proxies address s k) refl

ok-injective : {A : Type 0} {a b : A} → ◌≡◌ {A = Result NetworkError A} (ok a) (ok b) → a ≡ b
ok-injective h = cc

module _ {A : Type 0} (code : NetworkError) where
  or_error-ok : (o : Option A) (a : A) → or_error code o ≡ ok a → o ≡ some a
  or_error-ok none a h = cc
  or_error-ok (some b) a h = cc

  forget-ok : (r : Result NetworkError A) (a : A) → forget code r ≡ ok a → r ≡ ok a
  forget-ok (err e) a h = cc
  forget-ok (ok b) a h = h

no_trust :
    (net : Netip) (prefixes : List net.Prefix) (address : net.Addr)
    → (no_prefixes net prefixes || not (is_trusted net prefixes address))
      ≡ not (is_trusted net prefixes address)
unfolding is_trusted
no_trust net [] address = refl
no_trust net (_ ∷ _) address = refl

bounded_text :
    (text : Bytes)
    → (is_empty text || ltb 4096 (length text)) ≡ false
    → (text ≢ []) × (length text ≤ 4096)
bounded_text [] h = cc
bounded_text (c ∷ text) h = (λ e. cc, ground (arith, h))

text_bounded :
    (text : Bytes)
    → text ≢ []
    → length text ≤ 4096
    → (is_empty text || ltb 4096 (length text)) ≡ false
text_bounded [] h k = absurd (h refl)
text_bounded (c ∷ text) h k = ground (arith, k)

module _ (net : Netip) (trusted : List net.Prefix) where
  -- what a trusted peer forwards: the address that `resolve` reads out of it
  pub record IsForwarded (text : Bytes) (address : net.Addr) : Type 0 where
    pub some_text : text ≢ []
    pub short : length text ≤ 4096
    pub addresses : List net.Addr
    pub each : each_part (forwarded_address net) (split text b',') ≡ ok addresses
    pub last : IsLastUntrusted (is_trusted net trusted) addresses address

  -- Where an address comes from: it is that of the peer, which is not trusted, or the last one that
  -- is not trusted of those which a trusted peer forwards.
  pub data IsSource (request : ClientNetworkRequest) (address : net.Addr) : Type 0 where
    peer_itself :
        parse_address net request.direct_peer_ip ≡ ok address
        → is_trusted net trusted address ≡ false
        → IsSource request address
    forwarded :
        (proxy : net.Addr)
        → parse_address net request.direct_peer_ip ≡ ok proxy
        → is_trusted net trusted proxy ≡ true
        → IsForwarded request.forwarded_for address
        → IsSource request address

  resolve_forwarded_sound :
      (text : Bytes) (address : net.Addr)
      → resolve_forwarded net trusted text ≡ ok address
      → IsForwarded text address
  unfolding resolve_forwarded
  resolve_forwarded_sound text address h =
      let bad = is_empty text || ltb 4096 (length text) in
      let checked = fail_if bad client_identity_rejected in
      let read = each_part (forwarded_address net) (split text b',') in
      let (addresses, h1, h2) = >>=-eq-ok (checked >> read) _ h in
      let (_, e, each) = >>=-eq-ok checked (λ _. read) h1 in
      let found =
        or_error-ok client_identity_rejected (last_untrusted (is_trusted net trusted) addresses)
          address h2 in
      let (some_text, short) = bounded_text text (ground (arith, e)) in
      record {
        some_text = some_text;
        short = short;
        addresses = addresses;
        each = each;
        last = last_untrusted-some (is_trusted net trusted) addresses address found;
      }

  resolve_forwarded_complete :
      (text : Bytes) (address : net.Addr)
      → IsForwarded text address
      → resolve_forwarded net trusted text ≡ ok address
  unfolding resolve_forwarded
  resolve_forwarded_complete text address i =
      let found : last_untrusted (is_trusted net trusted) i.addresses ≡ some address =
        rw i.last.shown (
          last_untrusted-append (is_trusted net trusted) i.last.claimed i.last.proxies address
            i.last.stranger i.last.known) in
      rw (text_bounded text i.some_text i.short) (rw i.each (rw found refl))

  choice :
      (direct : net.Addr) (rest : Result NetworkError net.Addr)
      → (if no_prefixes net trusted || not (is_trusted net trusted direct) then ok direct else rest)
        ≡ (if is_trusted net trusted direct then rest else ok direct)
  choice direct rest = rw (no_trust net trusted direct) (ground arith)

  resolve_sound :
      (request : ClientNetworkRequest) (address : net.Addr)
      → resolve net trusted request ≡ ok address
      → IsSource request address
  unfolding resolve
  resolve_sound request address h =
      let parse = parse_address net request.direct_peer_ip in
      let (direct, e, h1) = >>=-eq-ok (forget client_identity_rejected parse) _ h in
      let parsed = forget-ok client_identity_rejected parse direct e in
      let rest = resolve_forwarded net trusted request.forwarded_for in
      let h2 = sym (choice direct rest) ∙ h1 in
      elim (Bool-cases (is_trusted net trusted direct)) [
        | inl t ↦
            forwarded direct parsed t
              (resolve_forwarded_sound request.forwarded_for address (rw t at h2))
        | inr f ↦
            let same : direct ≡ address = ok-injective (rw f at h2) in
            peer_itself (parsed ∙ ap ok same) (sym (ap (is_trusted net trusted) same) ∙ f)
      ]

  resolve_complete :
      (request : ClientNetworkRequest) (address : net.Addr)
      → IsSource request address
      → resolve net trusted request ≡ ok address
  unfolding resolve
  resolve_complete request address (peer_itself parsed t) =
      let rest = resolve_forwarded net trusted request.forwarded_for in
      rw parsed (choice address rest ∙ rw t refl)
  resolve_complete request address (forwarded proxy parsed t i) =
      let rest = resolve_forwarded net trusted request.forwarded_for in
      rw parsed
        (choice proxy rest ∙ rw t (resolve_forwarded_complete request.forwarded_for address i))

  -- Resolve answers exactly the address of the peer when no prefix trusts it, and else the last
  -- address that no prefix trusts of those in the forwarded text, where each part of the text, not
  -- empty and of at most 4096 bytes, is an address and each one after the answer is trusted.
  pub resolve_iff :
      (request : ClientNetworkRequest) (address : net.Addr)
      → (resolve net trusted request ≡ ok address) ↔ IsSource request address
  resolve_iff request address = (resolve_sound request address, resolve_complete request address)
