-- ===== src/Network/PeerUrl/Sound.antt =====
-- What an accepted peer URL guarantees.
use easyblockchain.Prelude.{
  ◌≤◌, length, ℕ, ◌≡◌, Bool, not, ◌&&◌, ◌||◌, none, true, false, String, some, List, [], ◌∷◌, ◌==◌,
  ◌⊎◌, inl, inr, str_eq, arith, Option-cases,
}
use easyblockchain.Types.{Environment, NetworkSettings}
use easyblockchain.Network.Tls.{url_scheme_matches_tls, rejects_plain_websocket}
use easyblockchain.Network.Addresses.{ParseResult, Addresses}
use easyblockchain.Network.PeerUrl.{
  any, present, is_address, normalize_ip, parse_blocked_networks, is_restricted_ip, is_bad_url,
  is_empty, parse_peer_url, peer_ips_allowed, resolve_peer_ips, resolve_peer_port,
  is_private_peer_target, default_port_for_scheme, check_target, checked_port, validate_peer_url,
}

||-eq-false : (a b : Bool) → (a || b) ≡ false → (a ≡ false) × (b ≡ false)
||-eq-false a b h = (ground arith, ground arith)

not-eq-false : (b : Bool) → not b ≡ false → b ≡ true
not-eq-false b h = ground arith

module _ {ℓ} {A : Type ℓ} where
  -- every element has the property
  abbrev pub Each {κ} : (A → Type κ) → List A → Type κ
  Each P [] = Unit
  Each P (x ∷ xs) = P x × Each P xs

module _ ⦃lib : Addresses⦄ (settings : NetworkSettings) where
  -- An address that the node may connect to.
  pub record IsSafe (ip : ℕ) : Type 0 where
    pub no_metadata : is_address "169.254.169.254" (normalize_ip ip) ≡ false
    pub no_metadata6 : is_address "fd00:ec2::254" (normalize_ip ip) ≡ false
    pub unblocked :
        any
          (lib.in_network (normalize_ip ip))
          (parse_blocked_networks settings.peer_connect.blocked_cidrs)
        ≡ false
    pub global :
        settings.peer_connect.allow_private_ips ≡ false
        → (lib.is_global (normalize_ip ip) ≡ true)
          × (lib.is_reserved (normalize_ip ip) ≡ false)
          × (lib.is_multicast (normalize_ip ip) ≡ false)

  is_restricted_ip-IsSafe :
      (ip : ℕ)
      → is_restricted_ip ip settings.peer_connect.allow_private_ips
          (parse_blocked_networks settings.peer_connect.blocked_cidrs)
        ≡ false
      → IsSafe ip
  unfolding is_restricted_ip
  is_restricted_ip-IsSafe ip h = record {
    no_metadata = ground arith;
    no_metadata6 = ground arith;
    unblocked = ground arith;
    global = λ p. (ground arith, ground arith, ground arith);
  }

  any-Each :
      (ips : List ℕ)
      → any
          (λ ip.
            is_restricted_ip ip settings.peer_connect.allow_private_ips
              (parse_blocked_networks settings.peer_connect.blocked_cidrs))
          ips
        ≡ false
      → Each IsSafe ips
  unfolding any
  any-Each [] h = tt
  any-Each (ip ∷ ips) h = (is_restricted_ip-IsSafe ip (ground arith), any-Each ips (ground arith))

  peer_ips_allowed-Each :
      (ips : List ℕ) → peer_ips_allowed ips settings ≡ true → Each IsSafe ips × (1 ≤ length ips)
  unfolding peer_ips_allowed is_empty
  peer_ips_allowed-Each [] h = cc
  peer_ips_allowed-Each (ip ∷ ips) h = (any-Each (ip ∷ ips) (ground arith), omega arith)

  -- the port that the URL leads to: the one it names, or the one of its scheme
  abbrev pub NamesPort : ParseResult → ℕ → Type 0
  NamesPort parsed port =
      (parsed.port ≡ some (some port))
      ⊎ ((parsed.port ≡ some none) × (port ≡ default_port_for_scheme parsed.scheme))

  -- A URL that `validate_peer_url` may return.
  pub record IsAllowedPeer (url : String) (environment : Environment) : Type 0 where
    pub parsed : ParseResult
    pub hostname : String
    pub port : ℕ
    pub parses : lib.urlparse url ≡ some parsed
    pub has_hostname : parsed.hostname ≡ some hostname
    pub encrypted :
        rejects_plain_websocket settings.tls.enabled environment ≡ true
        → str_eq (lib.lower parsed.scheme) "wss" ≡ true
    pub web_socket :
        (str_eq (lib.lower parsed.scheme) "ws" || str_eq (lib.lower parsed.scheme) "wss") ≡ true
    pub consistent : url_scheme_matches_tls url settings.tls.enabled ≡ true
    pub no_userinfo : (present parsed.username ≡ false) × (present parsed.password ≡ false)
    pub no_fragment : str_eq parsed.fragment "" ≡ true
    pub no_query : str_eq parsed.query "" ≡ true
    pub no_path : (str_eq parsed.path "" || str_eq parsed.path "/") ≡ true
    pub reachable : 1 ≤ length (resolve_peer_ips hostname)
    pub safe : Each IsSafe (resolve_peer_ips hostname)
    pub names_port : NamesPort parsed port
    pub port_allowed :
        (any (λ allowed. port == allowed) settings.peer_connect.allowed_ports ≡ true)
        ⊎ ((settings.peer_connect.allow_private_ips ≡ true)
            × (is_private_peer_target (resolve_peer_ips hostname) ≡ true))

  port_sound :
      (parsed : ParseResult) (ips : List ℕ) (port : ℕ)
      → resolve_peer_port parsed settings.peer_connect.allowed_ports ips
          settings.peer_connect.allow_private_ips
        ≡ some port
      → (any (λ allowed. port == allowed) settings.peer_connect.allowed_ports ≡ true)
        ⊎ ((settings.peer_connect.allow_private_ips ≡ true) × (is_private_peer_target ips ≡ true))
  unfolding resolve_peer_port
  port_sound parsed ips port h = ground (arith, Option-cases parsed.port)

  port_named :
      (parsed : ParseResult) (ips : List ℕ) (port : ℕ)
      → resolve_peer_port parsed settings.peer_connect.allowed_ports ips
          settings.peer_connect.allow_private_ips
        ≡ some port
      → NamesPort parsed port
  unfolding resolve_peer_port
  port_named parsed ips port h = elim (Option-cases parsed.port) [
    | inl e ↦ absurd (ground (arith, e))
    | inr (none, e) ↦ inr (e, ground (arith, e))
    | inr (some named, e) ↦ inl (ground (arith, e))
  ]

  parse_peer_url_sound :
      (url : String) (environment : Environment) (parsed : ParseResult)
      → parse_peer_url url settings environment ≡ some parsed
      → (lib.urlparse url ≡ some parsed) × (is_bad_url url settings environment parsed ≡ false)
  unfolding parse_peer_url
  parse_peer_url_sound url environment parsed h = (ground arith, ground arith)

  -- no reason to reject what urlparse has read
  record IsGood (url : String) (environment : Environment) (parsed : ParseResult) : Type 0 where
    web_socket :
        (str_eq (lib.lower parsed.scheme) "ws" || str_eq (lib.lower parsed.scheme) "wss") ≡ true
    plain_denied :
        (str_eq (lib.lower parsed.scheme) "ws"
          && rejects_plain_websocket settings.tls.enabled environment)
        ≡ false
    consistent : url_scheme_matches_tls url settings.tls.enabled ≡ true
    no_userinfo : (present parsed.username ≡ false) × (present parsed.password ≡ false)
    no_fragment : str_eq parsed.fragment "" ≡ true
    no_query : str_eq parsed.query "" ≡ true
    no_path : (str_eq parsed.path "" || str_eq parsed.path "/") ≡ true

  is_bad_url-IsGood :
      (url : String) (environment : Environment) (parsed : ParseResult)
      → is_bad_url url settings environment parsed ≡ false
      → IsGood url environment parsed
  unfolding is_bad_url
  is_bad_url-IsGood url environment parsed h =
      let (h₁, path) = ||-eq-false _ _ h in
      let (h₂, query) = ||-eq-false _ _ h₁ in
      let (h₃, fragment) = ||-eq-false _ _ h₂ in
      let (h₄, userinfo) = ||-eq-false _ _ h₃ in
      let (h₅, hostname) = ||-eq-false _ (not (present parsed.hostname)) h₄ in
      let (h₆, consistent) = ||-eq-false _ _ h₅ in
      let (scheme, plain) = ||-eq-false _ _ h₆ in
      record {
        web_socket = not-eq-false _ scheme;
        plain_denied = plain;
        consistent = not-eq-false _ consistent;
        no_userinfo = ||-eq-false _ _ userinfo;
        no_fragment = not-eq-false _ fragment;
        no_query = not-eq-false _ query;
        no_path = not-eq-false _ path;
      }

  wss_of :
      (ws wss rejects : Bool)
      → (ws || wss) ≡ true
      → (ws && rejects) ≡ false
      → rejects ≡ true
      → wss ≡ true
  wss_of ws wss rejects one denied on = ground arith

  check_target_sound :
      (url : String) (environment : Environment) (parsed : ParseResult) (hostname : String)
      (port : ℕ)
      → parse_peer_url url settings environment ≡ some parsed
      → parsed.hostname ≡ some hostname
      → check_target parsed settings (resolve_peer_ips hostname) ≡ some port
      → IsAllowedPeer url environment
  unfolding check_target
  check_target_sound url environment parsed hostname port parsing naming h =
      let (parses, passed) = parse_peer_url_sound url environment parsed parsing in
      let good = is_bad_url-IsGood url environment parsed passed in
      let allowed : peer_ips_allowed (resolve_peer_ips hostname) settings ≡ true = ground arith in
      let (safe, reachable) = peer_ips_allowed-Each (resolve_peer_ips hostname) allowed in
      record {
        parsed = parsed;
        hostname = hostname;
        port = port;
        parses = parses;
        has_hostname = naming;
        encrypted = wss_of _ _ _ good.web_socket good.plain_denied;
        web_socket = good.web_socket;
        consistent = good.consistent;
        no_userinfo = good.no_userinfo;
        no_fragment = good.no_fragment;
        no_query = good.no_query;
        no_path = good.no_path;
        reachable = reachable;
        safe = safe;
        names_port = port_named parsed (resolve_peer_ips hostname) port (ground arith);
        port_allowed = port_sound parsed (resolve_peer_ips hostname) port (ground arith);
      }

  checked_port_sound :
      (url : String) (environment : Environment) (port : ℕ)
      → checked_port url settings environment ≡ some port
      → IsAllowedPeer url environment
  unfolding checked_port
  checked_port_sound url environment port h =
      elim (Option-cases (parse_peer_url url settings environment)) [
        | inl e ↦ absurd (ground (arith, e))
        | inr (parsed, e) ↦ elim (Option-cases parsed.hostname) [
          | inl f ↦ absurd (ground (arith, e, f))
          | inr (hostname, f) ↦
              check_target_sound url environment parsed hostname port e f (ground (arith, e, f))
        ]
      ]

  -- A URL that the check lets through is returned unchanged; it has the scheme ws or wss, an
  -- encrypted one where TLS or production asks for it, a host, no user, password, query or
  -- fragment, and no path but `/`. The port that it names, or that its scheme has by default, is
  -- an allowed one (or any, on a private host where those are allowed). Its host has an address,
  -- and each of its addresses is neither a metadata address nor blocked, and is global and neither
  -- reserved nor multicast unless private ones are allowed.
  pub validate_peer_url-IsAllowedPeer :
      (url accepted : String) (environment : Environment)
      → validate_peer_url url settings environment ≡ some accepted
      → (accepted ≡ url) × IsAllowedPeer url environment
  unfolding validate_peer_url
  validate_peer_url-IsAllowedPeer url accepted environment h =
      elim (Option-cases (checked_port url settings environment)) [
        | inl e ↦ absurd (ground (arith, e))
        | inr (port, e) ↦ (ground (arith, e), checked_port_sound url environment port e)
      ]
