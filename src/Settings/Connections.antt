-- ===== src/Settings/Connections.antt =====
-- useful_blockchain/settings.py: the sections on TLS, peers, limits and reconnection.
use easyblockchain.Prelude.{ℕ, true, false, ◌||◌, String, List, [], ◌∷◌, map, if◌then◌else◌}
use easyblockchain.Prelude.Int.{ℤ, pos, ltb_ℤ}
use easyblockchain.Python.{Exc, Result, ok, err, type_error, value_error, guard, ◌>>=◌, ◌>>◌}
use easyblockchain.Python.Value.{
  Value, null, arr, str, int, float, Fields, Items, nil, cons, to_list,
}
use easyblockchain.Python.Fields.{get, get_or}
use easyblockchain.Platform.{Platform}
use easyblockchain.Dynamic.{int_of}
use easyblockchain.Types.{TlsSettings}
use easyblockchain.Settings.Values.{float_of, text_of, parse_bool}
use easyblockchain.Settings.Records.{
  PeerAuthSettings, RateLimitSettings, PeerConnectSettings, ReconnectSettings,
}

-- The bit patterns of 1.0, 2.0, 5.0 and 60.0.
abbrev pub float_1 : ℕ
float_1 = 4607182418800017408

abbrev pub float_2 : ℕ
float_2 = 4611686018427387904

abbrev float_5 : ℕ
float_5 = 4617315517961601024

abbrev float_60 : ℕ
float_60 = 4633641066610819072

abbrev default_ports : List ℤ
default_ports = pos 80 ∷ pos 443 ∷ pos 8765 ∷ []

-- DEFAULT_BLOCKED_PEER_CIDRS
abbrev default_blocked_cidrs : List String
default_blocked_cidrs =
    "127.0.0.0/8" ∷ "10.0.0.0/8" ∷ "172.16.0.0/12" ∷ "192.168.0.0/16" ∷ "169.254.0.0/16"
    ∷ "100.64.0.0/10" ∷ []

-- `except (TypeError, ValueError)`
abbrev not_integer : Exc → Exc
not_integer type_error = value_error
not_integer e = e

module _ ⦃env : Platform⦄ where
  unfoldable pub parse_tls : Fields → Result TlsSettings
  parse_tls mapping = do
    enabled ← parse_bool (get "enabled" mapping) false
    let cert_file = text_of (get_or "cert_file" mapping (str ""))
    let key_file = text_of (get_or "key_file" mapping (str ""))
    let ca_file = text_of (get_or "ca_file" mapping (str ""))
    verify_peer ← parse_bool (get "verify_peer" mapping) false
    ok (record {
      enabled = enabled;
      cert_file = cert_file;
      key_file = key_file;
      ca_file = ca_file;
      verify_peer = verify_peer;
    })

  unfoldable pub parse_peer_auth : Fields → Result PeerAuthSettings
  parse_peer_auth mapping = do
    timeout ← float_of (get_or "handshake_timeout_seconds" mapping (float float_5))
    guard (env.float_is_positive timeout) value_error
    enabled ← parse_bool (get "enabled" mapping) true
    max_skew ← int_of (get_or "max_skew_seconds" mapping (int (pos 300)))
    ok (record {
      enabled = enabled;
      max_skew_seconds = max_skew;
      handshake_timeout_seconds = timeout;
    })

  unfoldable pub parse_rate_limit : Fields → Result RateLimitSettings
  parse_rate_limit mapping = do
    connections ← int_of (get_or "max_connections_per_ip_per_minute" mapping (int (pos 10)))
    messages ← int_of (get_or "max_messages_per_peer_per_second" mapping (int (pos 50)))
    decode_errors ← int_of (get_or "max_decode_errors_before_disconnect" mapping (int (pos 5)))
    ok (record {
      max_connections_per_ip_per_minute = connections;
      max_messages_per_peer_per_second = messages;
      max_decode_errors_before_disconnect = decode_errors;
    })

  -- one item of the list of ports
  unfoldable pub parse_port : Value → Result ℤ
  parse_port v = elim (int_of v) [
    | err e ↦ err (not_integer e)
    | ok port ↦ if ltb_ℤ port (pos 1) || ltb_ℤ (pos 65535) port then err value_error else ok port
  ]

  -- the loop over the items
  unfoldable pub parse_ports : Items → Result (List ℤ)
  unfolding parse_port
  parse_ports nil = ok []
  parse_ports (cons v items) = do port ← parse_port v; ports ← parse_ports items; ok (port ∷ ports)

  unfoldable pub ports_of : Value → Result (List ℤ)
  ports_of null = ok default_ports
  ports_of (arr items) = parse_ports items
  ports_of _ = err value_error

  unfoldable pub parse_allowed_ports : Fields → Result (List ℤ)
  unfolding ports_of parse_ports
  parse_allowed_ports mapping = ports_of (get "allowed_ports" mapping)

  cidrs_of : Value → Result (List String)
  cidrs_of null = ok default_blocked_cidrs
  cidrs_of (arr items) = ok (map text_of (to_list items))
  cidrs_of _ = err value_error

  unfoldable pub parse_peer_connect : Fields → Result PeerConnectSettings
  unfolding cidrs_of
  parse_peer_connect mapping = do
    blocked ← cidrs_of (get "blocked_cidrs" mapping)
    allow_private_ips ← parse_bool (get "allow_private_ips" mapping) false
    per_message ← int_of (get_or "max_peers_per_message" mapping (int (pos 50)))
    known ← int_of (get_or "max_known_peers" mapping (int (pos 1000)))
    ports ← parse_allowed_ports mapping
    ok (record {
      allow_private_ips = allow_private_ips;
      blocked_cidrs = blocked;
      max_peers_per_message = per_message;
      max_known_peers = known;
      allowed_ports = ports;
    })

  unfoldable pub parse_reconnect : Fields → Result ReconnectSettings
  parse_reconnect mapping = do
    enabled ← parse_bool (get "enabled" mapping) true
    initial ← float_of (get_or "initial_delay_seconds" mapping (float float_1))
    longest ← float_of (get_or "max_delay_seconds" mapping (float float_60))
    attempts ← int_of (get_or "max_attempts" mapping (int (pos 0)))
    multiplier ← float_of (get_or "backoff_multiplier" mapping (float float_2))
    ok (record {
      enabled = enabled;
      initial_delay_seconds = initial;
      max_delay_seconds = longest;
      max_attempts = attempts;
      backoff_multiplier = multiplier;
    })
