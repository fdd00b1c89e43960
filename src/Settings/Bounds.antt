-- ===== src/Settings/Bounds.antt =====
-- What the readers of the section `network` guarantee: ports in range, limits that are positive.
use easyblockchain.Prelude.{
  ◌≡◌, subst, true, ◌||◌, List, [], ◌∷◌, arith, Bool-cases, inl, inr, if◌then◌else◌,
}
use easyblockchain.Prelude.Int.{ℤ, pos, ◌≤ℤ◌, ltb_ℤ}
use easyblockchain.Python.{ok_injective, Result-cases, ok, err, value_error, >>=-eq-ok, guard-eq-ok}
use easyblockchain.Python.Value.{Value, null, arr, Fields, Items, nil, cons}
use easyblockchain.Python.Fields.{get}
use easyblockchain.Platform.{Platform}
use easyblockchain.Dynamic.{int_of}
use easyblockchain.Settings.Values.{positive_int-positive, positive_float-positive}
use easyblockchain.Settings.Records.{PeerConnectSettings, PeerAuthSettings, Limits}
use easyblockchain.Settings.Connections.{
  parse_port, parse_ports, ports_of, parse_allowed_ports, parse_peer_connect, parse_peer_auth,
}
use easyblockchain.Settings.Network.{parse_limits}

-- every port is one that TCP has
abbrev pub ArePorts : List ℤ → Type 0
ArePorts [] = Unit
ArePorts (p ∷ ports) = (pos 1 ≤ℤ p) × (p ≤ℤ pos 65535) × ArePorts ports

module _ ⦃env : Platform⦄ where
  in_range :
      (p q : ℤ)
      → (if ltb_ℤ p (pos 1) || ltb_ℤ (pos 65535) p then err value_error else ok p) ≡ ok q
      → (pos 1 ≤ℤ q) × (q ≤ℤ pos 65535)
  in_range p q h = elim (Bool-cases (ltb_ℤ p (pos 1) || ltb_ℤ (pos 65535) p)) [
    | inl e ↦ absurd (ground arith)
    | inr e ↦ ground arith
  ]

  parse_port-range :
      (v : Value) (port : ℤ) → parse_port v ≡ ok port → (pos 1 ≤ℤ port) × (port ≤ℤ pos 65535)
  unfolding parse_port
  parse_port-range v port h = elim (Result-cases (int_of v)) [
    | inl (p, e) ↦ in_range p port (rw (parse_port, e) at h)
    | inr (raised, e) ↦ absurd (ground arith)
  ]

  parse_ports-ArePorts :
      (items : Items) (ports : List ℤ) → parse_ports items ≡ ok ports → ArePorts ports
  unfolding parse_ports
  parse_ports-ArePorts nil ports h = subst ArePorts (ok_injective h) tt
  parse_ports-ArePorts (cons v items) ports h =
      let (p, e, h₁) = >>=-eq-ok _ _ h in
      let (rest, e₁, h₂) = >>=-eq-ok _ _ h₁ in
      let (low, high) = parse_port-range v p e in
      subst ArePorts (ok_injective h₂) (low, high, parse_ports-ArePorts items rest e₁)

  parse_allowed_ports-ArePorts :
      (mapping : Fields) (ports : List ℤ) → parse_allowed_ports mapping ≡ ok ports → ArePorts ports
  unfolding parse_allowed_ports
  parse_allowed_ports-ArePorts mapping ports h = read (get "allowed_ports" mapping) h
    where
      read : (v : Value) → ports_of v ≡ ok ports → ArePorts ports
      read null e = subst ArePorts (ok_injective e) (ground arith)
      read (arr items) e = parse_ports-ArePorts items ports e
      read _ e = absurd (cc)

  pub parse_peer_connect-ArePorts :
      (mapping : Fields) (settings : PeerConnectSettings)
      → parse_peer_connect mapping ≡ ok settings
      → ArePorts settings.allowed_ports
  unfolding parse_peer_connect
  parse_peer_connect-ArePorts mapping settings h =
      let (blocked, e, h₁) = >>=-eq-ok _ _ h in
      let (private, e₁, h₂) = >>=-eq-ok _ _ h₁ in
      let (per, e₂, h₃) = >>=-eq-ok _ _ h₂ in
      let (known, e₃, h₄) = >>=-eq-ok _ _ h₃ in
      let (ports, e₄, h₅) = >>=-eq-ok _ _ h₄ in
      subst (λ (s : PeerConnectSettings). ArePorts s.allowed_ports) (ok_injective h₅)
        (parse_allowed_ports-ArePorts mapping ports e₄)

  -- a timeout that is positive
  pub parse_peer_auth-positive :
      (mapping : Fields) (settings : PeerAuthSettings)
      → parse_peer_auth mapping ≡ ok settings
      → env.float_is_positive settings.handshake_timeout_seconds ≡ true
  unfolding parse_peer_auth
  parse_peer_auth-positive mapping settings h =
      let (timeout, e, h₁) = >>=-eq-ok _ _ h in
      let (positive, h₂) = guard-eq-ok _ _ _ h₁ in
      let (enabled, e₁, h₃) = >>=-eq-ok _ _ h₂ in
      let (skew, e₂, h₄) = >>=-eq-ok _ _ h₃ in
      subst (λ (s : PeerAuthSettings). env.float_is_positive s.handshake_timeout_seconds ≡ true)
        (ok_injective h₄) positive

  -- the five limits
  pub record ArePositive (limits : Limits) : Type 0 where
    pub timeout : env.float_is_positive limits.mdns_resolution_timeout_seconds ≡ true
    pub interval : env.float_is_positive limits.mdns_resolution_interval_seconds ≡ true
    pub pending : pos 1 ≤ℤ limits.mdns_max_pending_services
    pub blocks : pos 1 ≤ℤ limits.chain_sync_max_blocks
    pub bytes : pos 1 ≤ℤ limits.chain_sync_max_bytes

  pub parse_limits-ArePositive :
      (mapping : Fields) (limits : Limits) → parse_limits mapping ≡ ok limits → ArePositive limits
  unfolding parse_limits
  parse_limits-ArePositive mapping limits h =
      let (timeout, e, h₁) = >>=-eq-ok _ _ h in
      let (interval, e₁, h₂) = >>=-eq-ok _ _ h₁ in
      let (pending, e₂, h₃) = >>=-eq-ok _ _ h₂ in
      let (blocks, e₃, h₄) = >>=-eq-ok _ _ h₃ in
      let (bytes, e₄, h₅) = >>=-eq-ok _ _ h₄ in
      subst ArePositive (ok_injective h₅) (record {
        timeout = (positive_float-positive _ timeout e).1;
        interval = (positive_float-positive _ interval e₁).1;
        pending = positive_int-positive _ pending e₂;
        blocks = positive_int-positive _ blocks e₃;
        bytes = positive_int-positive _ bytes e₄;
      })
