-- ===== src/Webhooks/Endpoint.antt =====
-- `validate_endpoint` of webhooks/worker.py: where a delivery may be posted.
use market_quorum.Prelude.{
  ℕ, ◌==◌, ◌≡◌, refl, ◌↔◌, Bool, true, false, not, ◌&&◌, ◌||◌, ◌⊎◌, All, zero, suc, List, [], ◌∷◌,
  Option, none, some, arith, if◌then◌else◌, any, is_empty, Bool-cases, inl, inr,
}
use mathlib.Core.Path.{subst}
use mathlib.Core.List.{reverse}
use market_quorum.Prelude.Text.{Text, text_eq, text_eq→eq, text_eq_iff, codes}

-- httpx.URL
pub record Url : Type 0 where
  pub scheme : Text
  pub host : Text
  pub port : Option ℕ
  pub userinfo : Text
  pub fragment : Text

-- What the standard library says of an address.
pub record Address : Type 0 where
  pub is_global : Bool
  pub is_private : Bool
  pub is_loopback : Bool
  pub is_link_local : Bool
  pub is_multicast : Bool

pub data EndpointRejected : Type 0 where
  invalid no_https no_hostname has_credentials has_fragment : EndpointRejected
  resolution_failed unresolved non_public : EndpointRejected

-- `resolver` gives the addresses, or `none` for a failure; `lower` is `str.lower`.
pub record Network : Type 0 where
  pub parse_url : Text → Option Url
  pub lower : Text → Text
  pub resolver : Text → ℕ → Option (List Address)

pub data Validated : Type 0 where
  accepted : Url → Validated
  rejected : EndpointRejected → Validated

abbrev pub strip_dots : Text → Text
strip_dots [] = []
strip_dots (c ∷ cs) = let rest = strip_dots cs in if c == b'.' then rest else c ∷ cs

-- `text.rstrip(".")`
abbrev pub rstrip_dots : Text → Text
rstrip_dots s = reverse (strip_dots (reverse s))

abbrev pub is_non_public : Address → Bool
is_non_public a =
    not a.is_global || a.is_private || a.is_loopback || a.is_link_local || a.is_multicast

-- `port or 443`
abbrev pub port_of : Option ℕ → ℕ
port_of none = 443
port_of (some zero) = 443
port_of (some (suc n)) = suc n

module _ (net : Network) (allowlist : List Text) where
  abbrev pub host_of : Url → Text
  host_of url = rstrip_dots (net.lower url.host)

  abbrev pub is_allowlisted : Text → Bool
  is_allowlisted host = any (λ item. text_eq (rstrip_dots (net.lower item)) host) allowlist

  abbrev pub check_addresses : Url → Option (List Address) → Validated
  check_addresses url none = rejected resolution_failed
  check_addresses url (some addresses) =
      if is_empty addresses
      then rejected unresolved
      else if not (is_allowlisted (host_of url)) && any is_non_public addresses
      then rejected non_public
      else accepted url

  abbrev pub check_url : Option Url → Validated
  check_url none = rejected invalid
  check_url (some url) =
      if not (text_eq url.scheme (codes "https"))
      then rejected no_https
      else if is_empty url.host
      then rejected no_hostname
      else if not (is_empty url.userinfo)
      then rejected has_credentials
      else if not (is_empty url.fragment)
      then rejected has_fragment
      else check_addresses url (net.resolver (host_of url) (port_of url.port))

  unfoldable pub validate_endpoint : Text → Validated
  validate_endpoint endpoint = check_url (net.parse_url endpoint)

-- The address is public, as the standard library says.
abbrev pub IsPublic : Address → Type 0
IsPublic a =
    (a.is_global ≡ true)
    × (a.is_private ≡ false)
    × (a.is_loopback ≡ false)
    × (a.is_link_local ≡ false)
    × (a.is_multicast ≡ false)

-- The name is on the allowlist, or all its addresses are public.
abbrev pub IsReachable : Network → List Text → Text → List Address → Type 0
IsReachable net allowlist host addresses =
    (is_allowlisted net allowlist host ≡ true) ⊎ All IsPublic addresses

pub record IsSafe (net : Network) (allowlist : List Text) (url : Url) : Type 0 where
  pub https : url.scheme ≡ codes "https"
  pub named : is_empty url.host ≡ false
  pub no_userinfo : url.userinfo ≡ []
  pub no_fragment : url.fragment ≡ []
  pub address : Address
  pub others : List Address
  pub resolved :
      net.resolver (host_of net allowlist url) (port_of url.port) ≡ some (address ∷ others)
  pub reachable : IsReachable net allowlist (host_of net allowlist url) (address ∷ others)

any-All : (xs : List Address) → any is_non_public xs ≡ false → All IsPublic xs
any-All [] h = tt
any-All (a ∷ xs) h = ground (arith, any-All xs)

All-any : (xs : List Address) → All IsPublic xs → any is_non_public xs ≡ false
All-any [] h = refl
All-any (a ∷ xs) h = ground (arith, All-any xs h.1)

is_empty→nil : (s : Text) → is_empty s ≡ true → s ≡ []
is_empty→nil [] h = refl
is_empty→nil (c ∷ cs) h = cc

module _ (net : Network) (allowlist : List Text) where
  check_addresses-accepted :
      (url : Url) (o : Option (List Address)) {u : Url}
      → check_addresses net allowlist url o ≡ accepted u
      → (a : Address) × (xs : List Address) × (o ≡ some (a ∷ xs))
        × IsReachable net allowlist (host_of net allowlist url) (a ∷ xs)
        × (url ≡ u)
  check_addresses-accepted url none h = cc
  check_addresses-accepted url (some []) h = cc
  check_addresses-accepted url (some (a ∷ xs)) h =
      elim (Bool-cases (is_allowlisted net allowlist (host_of net allowlist url))) [
        | inl listed ↦ (a, xs, refl, inl listed, ground arith)
        | inr unlisted ↦ elim (Bool-cases (any is_non_public (a ∷ xs))) [
          | inl private ↦ absurd (ground arith)
          | inr public ↦ (a, xs, refl, inr (any-All (a ∷ xs) public), ground arith)
        ]
      ]

  check_url-accepted :
      (o : Option Url) {u : Url}
      → check_url net allowlist o ≡ accepted u
      → (o ≡ some u) × IsSafe net allowlist u
  check_url-accepted none h = cc
  check_url-accepted (some url) {u} h =
      let tail : check_addresses net allowlist url
            (net.resolver (host_of net allowlist url) (port_of url.port))
          ≡ accepted u =
        ground arith in
      let (a, xs, resolved, reachable, same) = check_addresses-accepted url _ tail in
      subst (λ v. (some url ≡ some v) × IsSafe net allowlist v) same
        (
          refl,
          record {
            https = text_eq→eq url.scheme _ (ground arith);
            named = ground arith;
            no_userinfo = is_empty→nil url.userinfo (ground arith);
            no_fragment = is_empty→nil url.fragment (ground arith);
            address = a;
            others = xs;
            resolved = resolved;
            reachable = reachable;
          },
        )

  check_addresses-reachable :
      (url : Url) (a : Address) (xs : List Address)
      → IsReachable net allowlist (host_of net allowlist url) (a ∷ xs)
      → check_addresses net allowlist url (some (a ∷ xs)) ≡ accepted url
  check_addresses-reachable url a xs (inl listed) = rw listed
  check_addresses-reachable url a xs (inr public) = ground (arith, All-any (a ∷ xs) public)

  IsSafe-check_url :
      (url : Url) → IsSafe net allowlist url → check_url net allowlist (some url) ≡ accepted url
  IsSafe-check_url url s =
      let https : text_eq url.scheme (codes "https") ≡ true =
        (text_eq_iff url.scheme _).1 s.https in
      let checked = check_addresses-reachable url s.address s.others s.reachable in
      ground (arith, s.named, s.no_userinfo, s.no_fragment, s.resolved)

  -- `validate_endpoint` accepts a URL exactly when the endpoint is parsed as it, its scheme is
  -- https, it has a host, no user information and no fragment, its host has addresses, and the
  -- host is on the allowlist or all its addresses are public.
  pub validate_endpoint-accepted_iff :
      (endpoint : Text) (url : Url)
      → (validate_endpoint net allowlist endpoint ≡ accepted url)
        ↔ ((net.parse_url endpoint ≡ some url) × IsSafe net allowlist url)
  unfolding validate_endpoint
  validate_endpoint-accepted_iff endpoint url =
      (λ h. check_url-accepted (net.parse_url endpoint) h, λ (e, s). rw e (IsSafe-check_url url s))
