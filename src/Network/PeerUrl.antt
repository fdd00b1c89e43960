-- ===== src/Network/PeerUrl.antt =====
-- useful_blockchain/network/peer_url.py: the check of a URL that a peer has named.
pub mod Sound
use easyblockchain.Prelude.{
  ℕ, Bool, true, false, not, ◌||◌, ◌&&◌, String, Option, none, some, List, [], ◌∷◌, length, ltb,
  ◌==◌, str_eq, if◌then◌else◌,
}
use easyblockchain.Hash.{text_length}
use easyblockchain.Types.{Environment, NetworkSettings, PeerConnectSettings}
use easyblockchain.Network.Tls.{starts_with, url_scheme_matches_tls, rejects_plain_websocket}
use easyblockchain.Network.Addresses.{ParseResult, Addresses}

pub record PeerConnectTarget : Type 0 where
  pub url : String
  pub host : String
  pub port : ℕ
  pub hostname : String

-- `bool(s)` of an optional text
abbrev pub present : Option String → Bool
present none = false
present (some s) = not (str_eq s "")

-- `any(test(x) for x in xs)` and `all(...)`
pub any {ℓ} : {A : Type ℓ} → (A → Bool) → List A → Bool
any test [] = false
any test (x ∷ xs) = test x || any test xs

pub all {ℓ} : {A : Type ℓ} → (A → Bool) → List A → Bool
all test [] = true
all test (x ∷ xs) = test x && all test xs

unfoldable pub default_port_for_scheme : String → ℕ
default_port_for_scheme scheme = if str_eq scheme "wss" then 443 else 80

module _ ⦃lib : Addresses⦄ where
  unfoldable pub parse_blocked_networks : List String → List ℕ
  parse_blocked_networks [] = []
  parse_blocked_networks (cidr ∷ cidrs) =
      let networks = parse_blocked_networks cidrs in
      elim (lib.ip_network cidr) [ none ↦ networks | some network ↦ network ∷ networks ]

  -- the loop over the answers, with the hosts seen
  unfoldable pub answered_ips : List String → List (Bool × String) → List ℕ
  unfolding any
  answered_ips seen [] = []
  answered_ips seen ((inet, host) ∷ answers) =
      let known = answered_ips seen answers in
      let fresh = answered_ips (host ∷ seen) answers in
      if not inet || any (str_eq host) seen
      then known
      else elim (lib.ip_address host) [ none ↦ fresh | some ip ↦ ip ∷ fresh ]

  unfoldable pub resolve_host_ips : String → List ℕ
  resolve_host_ips hostname = answered_ips [] (lib.getaddrinfo hostname)

  unfoldable pub normalize_ip : ℕ → ℕ
  normalize_ip ip = elim (lib.ipv4_mapped ip) [ none ↦ ip | some mapped ↦ mapped ]

  unfoldable pub is_address : String → ℕ → Bool
  is_address text ip = elim (lib.ip_address text) [ none ↦ false | some address ↦ address == ip ]

  unfoldable pub is_restricted_ip : ℕ → Bool → List ℕ → Bool
  unfolding is_address any
  is_restricted_ip ip allow_private_ips blocked_networks =
      let normal = normalize_ip ip in
      if is_address "169.254.169.254" normal || is_address "fd00:ec2::254" normal
      then true
      else if any (lib.in_network normal) blocked_networks
      then true
      else if allow_private_ips
      then false
      else not (lib.is_global normal) || lib.is_reserved normal || lib.is_multicast normal

  is_empty : List ℕ → Bool
  is_empty [] = true
  is_empty _ = false

  unfoldable pub is_private_peer_target : List ℕ → Bool
  unfolding is_empty all
  is_private_peer_target ips =
      not (is_empty ips) && all (λ ip. lib.is_private ip || lib.is_loopback ip) ips

  chosen_port : ParseResult → Option ℕ → ℕ
  chosen_port parsed none = default_port_for_scheme parsed.scheme
  chosen_port parsed (some port) = port

  unfoldable pub resolve_peer_port : ParseResult → List ℕ → List ℕ → Bool → Option ℕ
  unfolding chosen_port any
  resolve_peer_port parsed allowed_ports ips allow_private_ips = elim parsed.port [
    | none ↦ none
    | some explicit_port ↦
        let port = chosen_port parsed explicit_port in
        if any (λ allowed. port == allowed) allowed_ports
        then some port
        else if allow_private_ips && is_private_peer_target ips
        then some port
        else none
  ]

  -- the reasons for which `_parse_peer_url` rejects what urlparse has read
  unfoldable pub is_bad_url : String → NetworkSettings → Environment → ParseResult → Bool
  is_bad_url url settings environment parsed =
      let scheme = lib.lower parsed.scheme in
      not (str_eq scheme "ws" || str_eq scheme "wss")
      || (str_eq scheme "ws" && rejects_plain_websocket settings.tls.enabled environment)
      || not (url_scheme_matches_tls url settings.tls.enabled)
      || not (present parsed.hostname)
      || (present parsed.username || present parsed.password)
      || not (str_eq parsed.fragment "")
      || not (str_eq parsed.query "")
      || not (str_eq parsed.path "" || str_eq parsed.path "/")

  unfoldable pub parse_peer_url : String → NetworkSettings → Environment → Option ParseResult
  parse_peer_url url settings environment =
      if str_eq url "" then none else elim (lib.urlparse url) [
        | none ↦ none
        | some parsed ↦ if is_bad_url url settings environment parsed then none else some parsed
      ]

  unfoldable pub has_ambiguous_ipv4_notation : String → Bool
  unfolding any all
  has_ambiguous_ipv4_notation hostname =
      let parts = lib.split_dots hostname in
      if not (length parts == 4)
      then false
      else if not (all lib.isdigit parts)
      then false
      else any (λ part. ltb 1 (text_length part) && starts_with "0" part) parts

  unfoldable pub resolve_peer_ips : String → List ℕ
  resolve_peer_ips hostname =
      if has_ambiguous_ipv4_notation hostname then [] else elim (lib.ip_address hostname) [
        | some literal_ip ↦ literal_ip ∷ []
        | none ↦ resolve_host_ips hostname
      ]

  unfoldable pub peer_ips_allowed : List ℕ → NetworkSettings → Bool
  unfolding is_empty any
  peer_ips_allowed ips settings =
      if is_empty ips
      then false
      else not (
          any
            (λ ip.
              is_restricted_ip ip settings.peer_connect.allow_private_ips
                (parse_blocked_networks settings.peer_connect.blocked_cidrs))
            ips)

  -- what is checked after the parse, on the host's addresses; the result is the port
  unfoldable pub check_target : ParseResult → NetworkSettings → List ℕ → Option ℕ
  check_target parsed settings ips =
      if not (peer_ips_allowed ips settings)
      then none
      else resolve_peer_port parsed settings.peer_connect.allowed_ports ips
          settings.peer_connect.allow_private_ips

  -- the port that the URL leads to, if it passes
  unfoldable pub checked_port : String → NetworkSettings → Environment → Option ℕ
  checked_port url settings environment = elim (parse_peer_url url settings environment) [
    | none ↦ none
    | some parsed ↦ elim parsed.hostname [
      | none ↦ none
      | some hostname ↦ check_target parsed settings (resolve_peer_ips hostname)
    ]
  ]

  unfoldable pub validate_peer_url : String → NetworkSettings → Environment → Option String
  validate_peer_url url settings environment = elim (checked_port url settings environment) [
    | none ↦ none
    | some port ↦ some url
  ]

  first_of : List ℕ → Option ℕ
  first_of [] = none
  first_of (ip ∷ ips) = some ip

  -- what is pinned of a host's addresses
  pinned : String → String → Option ℕ → Option ℕ → Option PeerConnectTarget
  pinned url hostname (some ip) (some port) =
      some (record { url = url; host = lib.show_ip ip; port = port; hostname = hostname })
  pinned url hostname _ _ = none

  unfoldable pub resolve_peer_connect_target :
      String → NetworkSettings → Environment → Option PeerConnectTarget
  unfolding first_of pinned
  resolve_peer_connect_target url settings environment =
      elim (parse_peer_url url settings environment) [
        | none ↦ none
        | some parsed ↦ elim parsed.hostname [
          | none ↦ none
          | some hostname ↦
              let ips = resolve_peer_ips hostname in
              pinned url hostname (first_of ips) (check_target parsed settings ips)
        ]
      ]
