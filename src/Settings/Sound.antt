-- ===== src/Settings/Sound.antt =====
-- What an accepted configuration guarantees.
use easyblockchain.Prelude.{
  ◌≡◌, ◌⊎◌, inl, inr, refl, subst, Bool, true, not, ◌&&◌, String, Option, List, [], ◌∷◌, arith,
  str_eq, Bool-cases, ==_iff, if◌then◌else◌,
}
use easyblockchain.Python.{ok, err, ok_injective, value_error, >>=-eq-ok, guard-eq-ok}
use easyblockchain.Python.Value.{Value, str, Fields}
use easyblockchain.Platform.{Platform}
use easyblockchain.Types.{Environment, TlsSettings, GenesisSettings}
use easyblockchain.Hash.{text_length}
use easyblockchain.Network.Tls.{
  url_scheme_matches_tls, bootstrap_peers_match, validate_production_network,
}
use easyblockchain.Settings.Values.{text_of}
use easyblockchain.Python.Fields.{get_or}
use easyblockchain.Settings.Records.{
  AppSettings, NetworkSettings, PersistenceSettings, ObservabilitySettings,
}
use easyblockchain.Settings.Names.{
  only_chars, hex_digits, is_basename, parse_safe_basename, parse_genesis,
}
use easyblockchain.Settings.Local.{parse_persistence, parse_observability, file_name}
use easyblockchain.Settings.Network.{parse_network}
use easyblockchain.Settings.Bounds.{
  ArePorts, ArePositive, parse_limits-ArePositive, parse_peer_connect-ArePorts,
  parse_peer_auth-positive,
}
use easyblockchain.Settings.{parse_settings}

-- every peer of the list is a URL with the scheme wss
abbrev pub AreEncrypted : List Value → Type 0
AreEncrypted [] = Unit
AreEncrypted (v ∷ peers) =
    ((url : String) × (v ≡ str url) × (url_scheme_matches_tls url true ≡ true)) × AreEncrypted peers

-- what a production node must be configured with
pub record IsSecured (tls : TlsSettings) (allow_private_ips : Bool) (bootstrap_peers : List Value)
    : Type 0 where
  pub enabled : tls.enabled ≡ true
  pub verify_peer : tls.verify_peer ≡ true
  pub cert_file : not (str_eq tls.cert_file "") ≡ true
  pub key_file : not (str_eq tls.key_file "") ≡ true
  pub ca_file : not (str_eq tls.ca_file "") ≡ true
  pub no_private_ips : not allow_private_ips ≡ true
  pub encrypted : AreEncrypted bootstrap_peers

bootstrap_peers_match-AreEncrypted :
    (peers : List Value) → bootstrap_peers_match peers ≡ ok tt → AreEncrypted peers
unfolding bootstrap_peers_match
bootstrap_peers_match-AreEncrypted [] h = tt
bootstrap_peers_match-AreEncrypted (str url ∷ peers) h =
    let (t, later) = guard-eq-ok _ _ _ h in
    ((url, refl, t), bootstrap_peers_match-AreEncrypted peers later)
bootstrap_peers_match-AreEncrypted (_ ∷ peers) h = absurd (cc)

validate_production_network-IsSecured :
    (environment : Environment) (tls : TlsSettings) (private : Bool) (peers : List Value)
    → validate_production_network environment tls private peers ≡ ok tt
    → (environment ≡ Environment.development) ⊎ IsSecured tls private peers
unfolding validate_production_network
validate_production_network-IsSecured Environment.development tls private peers h = inl refl
validate_production_network-IsSecured Environment.production tls private peers h =
    let (enabled, h₁) = guard-eq-ok _ _ _ h in
    let (verify, h₂) = guard-eq-ok _ _ _ h₁ in
    let (cert, h₃) = guard-eq-ok _ _ _ h₂ in
    let (key, h₄) = guard-eq-ok _ _ _ h₃ in
    let (ca, h₅) = guard-eq-ok _ _ _ h₄ in
    let (public, h₆) = guard-eq-ok _ _ _ h₅ in
    inr (record {
      enabled = enabled;
      verify_peer = verify;
      cert_file = cert;
      key_file = key;
      ca_file = ca;
      no_private_ips = public;
      encrypted = bootstrap_peers_match-AreEncrypted peers h₆;
    })

module _ ⦃env : Platform⦄ where
  -- the hash is 64 lower-case hex digits
  pub record IsHash (hash : String) : Type 0 where
    pub long : text_length hash ≡ 64
    pub hex : only_chars hex_digits hash ≡ true

  parse_genesis-IsHash :
      (mapping : Fields) (s : GenesisSettings) → parse_genesis mapping ≡ ok s → IsHash s.prev_hash
  unfolding parse_genesis
  parse_genesis-IsHash mapping s h =
      let (long, h₁) = guard-eq-ok _ _ _ h in
      let (hex, h₂) = guard-eq-ok _ _ _ h₁ in
      subst (λ (g : GenesisSettings). IsHash g.prev_hash) (ok_injective h₂)
        (record { long = (==_iff _ _).0 long; hex = hex })

  file_name-is_basename :
      (mapping : Fields) (name default file : String)
      → file_name mapping name default ≡ ok file
      → is_basename file ≡ true
  unfolding file_name parse_safe_basename
  file_name-is_basename mapping name default file h =
      checked (if str_eq given "" then default else given) h
    where
      given : String
      given = text_of (get_or name mapping (str default))

      checked :
          (n : String)
          → (if is_basename n then ok n else err value_error) ≡ ok file
          → is_basename file ≡ true
      checked n e = elim (Bool-cases (is_basename n)) [
        | inl t ↦ subst (λ m. is_basename m ≡ true) (ok_injective (rw t at e)) t
        | inr t ↦ absurd (ground arith)
      ]

  -- every file stands in the data directory under a plain name
  pub record AreBasenames (s : PersistenceSettings) : Type 0 where
    pub chain_file : is_basename s.chain_file ≡ true
    pub meta_file : is_basename s.meta_file ≡ true
    pub genesis_stakes_file : is_basename s.genesis_stakes_file ≡ true
    pub keys_dir : is_basename s.keys_dir ≡ true
    pub private_key_file : is_basename s.private_key_file ≡ true
    pub p2p_identity_file : is_basename s.p2p_identity_file ≡ true

  parse_persistence-AreBasenames :
      (mapping : Fields) (s : PersistenceSettings)
      → parse_persistence mapping ≡ ok s
      → AreBasenames s
  unfolding parse_persistence
  parse_persistence-AreBasenames mapping s h =
      let (version, e, h₁) = >>=-eq-ok _ _ h in
      let (bytes, e₁, h₂) = >>=-eq-ok _ _ h₁ in
      let (chain, e₂, h₃) = >>=-eq-ok _ _ h₂ in
      let (meta, e₃, h₄) = >>=-eq-ok _ _ h₃ in
      let (stakes, e₄, h₅) = >>=-eq-ok _ _ h₄ in
      let (keys, e₅, h₆) = >>=-eq-ok _ _ h₅ in
      let (key, e₆, h₇) = >>=-eq-ok _ _ h₆ in
      let (identity, e₇, h₈) = >>=-eq-ok _ _ h₇ in
      let (store, e₈, h₉) = >>=-eq-ok _ _ h₈ in
      subst AreBasenames (ok_injective h₉) (record {
        chain_file = file_name-is_basename mapping _ _ chain e₂;
        meta_file = file_name-is_basename mapping _ _ meta e₃;
        genesis_stakes_file = file_name-is_basename mapping _ _ stakes e₄;
        keys_dir = file_name-is_basename mapping _ _ keys e₅;
        private_key_file = file_name-is_basename mapping _ _ key e₆;
        p2p_identity_file = file_name-is_basename mapping _ _ identity e₇;
      })

  -- with authentication there is a token
  abbrev pub HasToken : ObservabilitySettings → Type 0
  HasToken s = not (s.auth_enabled && str_eq s.auth_token "") ≡ true

  parse_observability-HasToken :
      (variable : Option String) (mapping : Fields) (s : ObservabilitySettings)
      → parse_observability variable mapping ≡ ok s
      → HasToken s
  unfolding parse_observability
  parse_observability-HasToken variable mapping s h =
      let (format, e, h₁) = >>=-eq-ok _ _ h in
      let (auth, e₁, h₂) = >>=-eq-ok _ _ h₁ in
      let (token, h₃) = guard-eq-ok _ _ _ h₂ in
      let (enabled, e₂, h₄) = >>=-eq-ok _ _ h₃ in
      let (port, e₃, h₅) = >>=-eq-ok _ _ h₄ in
      let (peers, e₄, h₆) = >>=-eq-ok _ _ h₅ in subst HasToken (ok_injective h₆) token

  -- the facts of the section `network` by itself
  pub record IsBoundedNetwork (s : NetworkSettings) : Type 0 where
    pub limits : ArePositive s.limits
    pub handshake : env.float_is_positive s.peer_auth.handshake_timeout_seconds ≡ true
    pub ports : ArePorts s.peer_connect.allowed_ports

  parse_network-IsBoundedNetwork :
      (mapping : Fields) (s : NetworkSettings) → parse_network mapping ≡ ok s → IsBoundedNetwork s
  unfolding parse_network
  parse_network-IsBoundedNetwork mapping s h =
      let (limits, e, h₁) = >>=-eq-ok _ _ h in
      let (peers, e₁, h₂) = >>=-eq-ok _ _ h₁ in
      let (port, e₂, h₃) = >>=-eq-ok _ _ h₂ in
      let (mdns, e₃, h₄) = >>=-eq-ok _ _ h₃ in
      let (numbers, e₄, h₅) = >>=-eq-ok _ _ h₄ in
      let (tls_section, e₅, h₆) = >>=-eq-ok _ _ h₅ in
      let (tls, e₆, h₇) = >>=-eq-ok _ _ h₆ in
      let (auth_section, e₇, h₈) = >>=-eq-ok _ _ h₇ in
      let (auth, e₈, h₉) = >>=-eq-ok _ _ h₈ in
      let (connect_section, f, g₁) = >>=-eq-ok _ _ h₉ in
      let (connect, f₁, g₂) = >>=-eq-ok _ _ g₁ in
      let (rate_section, f₂, g₃) = >>=-eq-ok _ _ g₂ in
      let (rate, f₃, g₄) = >>=-eq-ok _ _ g₃ in
      let (reconnect_section, f₄, g₅) = >>=-eq-ok _ _ g₄ in
      let (reconnect, f₅, g₆) = >>=-eq-ok _ _ g₅ in
      subst IsBoundedNetwork (ok_injective g₆) (record {
        limits = parse_limits-ArePositive mapping limits e;
        handshake = parse_peer_auth-positive auth_section auth e₈;
        ports = parse_peer_connect-ArePorts connect_section connect f₁;
      })

  pub record IsSound (s : AppSettings) : Type 0 where
    pub network : IsBoundedNetwork s.network
    pub genesis : IsHash s.genesis.prev_hash
    pub files : AreBasenames s.persistence
    pub token : HasToken s.observability
    pub production :
        (s.node.environment ≡ Environment.development)
        ⊎ IsSecured s.network.tls s.network.peer_connect.allow_private_ips s.network.bootstrap_peers

  -- In settings that are accepted the ports of `peer_connect.allowed_ports` are between 1 and 65535;
  -- the two mDNS times, `mdns_max_pending_services`, `chain_sync_max_blocks`, `chain_sync_max_bytes`
  -- and the handshake's timeout are positive; the genesis hash is 64 lower-case hex digits; the
  -- files of the store have plain names; authentication of the health server has a token; and a
  -- node in production has TLS with verification, its files, no private addresses, and bootstrap
  -- peers with the scheme wss.
  pub parse_settings-IsSound :
      (variable : Option String) (mapping : Fields) (s : AppSettings)
      → parse_settings variable mapping ≡ ok s
      → IsSound s
  unfolding parse_settings
  parse_settings-IsSound variable mapping s h =
      let (network_section, e, h₁) = >>=-eq-ok _ _ h in
      let (network, e₁, h₂) = >>=-eq-ok _ _ h₁ in
      let (node_section, e₂, h₃) = >>=-eq-ok _ _ h₂ in
      let (node, e₃, h₄) = >>=-eq-ok _ _ h₃ in
      let (consensus_section, e₄, h₅) = >>=-eq-ok _ _ h₄ in
      let (consensus, e₅, h₆) = >>=-eq-ok _ _ h₅ in
      let (genesis_section, e₆, h₇) = >>=-eq-ok _ _ h₆ in
      let (genesis, e₇, h₈) = >>=-eq-ok _ _ h₇ in
      let (persistence_section, e₈, h₉) = >>=-eq-ok _ _ h₈ in
      let (persistence, f, g₁) = >>=-eq-ok _ _ h₉ in
      let (observability_section, f₁, g₂) = >>=-eq-ok _ _ g₁ in
      let (observability, f₂, g₃) = >>=-eq-ok _ _ g₂ in
      let (secured, f₃, g₄) = >>=-eq-ok _ _ g₃ in
      subst IsSound (ok_injective g₄) (record {
        network = parse_network-IsBoundedNetwork network_section network e₁;
        genesis = parse_genesis-IsHash genesis_section genesis e₇;
        files = parse_persistence-AreBasenames persistence_section persistence f;
        token = parse_observability-HasToken variable observability_section observability f₂;
        production = validate_production_network-IsSecured _ _ _ _ f₃;
      })
