-- ===== src/Tests/Configured.antt =====
-- A configuration of a node in production, and the merging of an override into it.
use easyblockchain.Prelude.{Bool, ◌≡◌, refl, none, some, [], ◌∷◌, true, false}
use easyblockchain.Prelude.Int.{pos}
use easyblockchain.Python.{ok, guard, ◌>>=◌ as bind}
use easyblockchain.Python.Value.{str, int, bool, obj, arr, cons, nil, Fields, end, field}
use easyblockchain.Python.Fields.{find, put}
use easyblockchain.Types.{Environment, ConsensusType}
use easyblockchain.Settings.{parse_settings}
use easyblockchain.Settings.Records.{AppSettings, LogFormat}
use easyblockchain.Settings.Values
use easyblockchain.Settings.Values.{deep_merge}
use easyblockchain.Settings.Connections
use easyblockchain.Settings.Network
use easyblockchain.Settings.Names
use easyblockchain.Settings.Local
use easyblockchain.Settings.Sound.{IsSound, parse_settings-IsSound}
use easyblockchain.Settings.Merge.{find-deep_merge}
use easyblockchain.Network.Tls.{
  validate_production_network, bootstrap_peers_match, url_scheme_matches_tls, starts_with,
}
use easyblockchain.Hash.{text_length}
use easyblockchain.Tests.Toy.{toy}

abbrev encrypted_network : Fields
encrypted_network =
    field "tls"
      (obj (
        field "enabled" (bool true) (
          field "verify_peer" (bool true) (
            field "cert_file" (str "c")
              (field "key_file" (str "k") (field "ca_file" (str "a") end))))))
      (field "bootstrap_peers" (arr (cons (str "wss://h") nil)) (
        field "peer_connect" (obj (field "allowed_ports" (arr (cons (int (pos 443)) nil)) end))
          end))

abbrev production_config : Fields
production_config =
    field "node" (obj (field "environment" (str "production") end))
      (field "network" (obj encrypted_network) end)

abbrev accepted_settings : AppSettings
accepted_settings = record {
  consensus = record {
    type = ConsensusType.pow;
    pow = record {
      initial_difficulty = pos 4;
      adjustment_interval = pos 10;
      max_adjustment_factor = 4611686018427387904;
      max_mining_iterations = pos 1000000;
      target_block_time_seconds = pos 10;
    };
    pos = record { epoch_length = pos 10; min_stake = pos 100; block_reward = pos 10 };
  };
  network = record {
    limits = record {
      mdns_resolution_timeout_seconds = 4607182418800017408;
      mdns_resolution_interval_seconds = 4596373779694328218;
      mdns_max_pending_services = pos 100;
      chain_sync_max_blocks = pos 10000;
      chain_sync_max_bytes = pos 67108864;
    };
    host = "0.0.0.0";
    port = pos 8765;
    bootstrap_peers = str "wss://h" ∷ [];
    mdns_enabled = false;
    mdns_service_name = "_easyblockchain._tcp.local.";
    numbers = record {
      max_peers = pos 25;
      max_message_bytes = pos 1048576;
      chain_sync_batch_size = pos 100;
      ping_interval_seconds = pos 30;
      connection_timeout_seconds = pos 10;
      broadcast_send_timeout_seconds = pos 5;
      chain_sync_timeout_seconds = pos 10;
      shutdown_peer_close_timeout_seconds = pos 2;
      shutdown_server_wait_timeout_seconds = pos 3;
      pong_timeout_seconds = pos 90;
    };
    tls = record {
      enabled = true;
      cert_file = "c";
      key_file = "k";
      ca_file = "a";
      verify_peer = true;
    };
    peer_auth = record {
      enabled = true;
      max_skew_seconds = pos 300;
      handshake_timeout_seconds = 4617315517961601024;
    };
    peer_connect = record {
      allow_private_ips = false;
      blocked_cidrs =
          "127.0.0.0/8" ∷ "10.0.0.0/8" ∷ "172.16.0.0/12" ∷ "192.168.0.0/16" ∷ "169.254.0.0/16"
          ∷ "100.64.0.0/10" ∷ [];
      max_peers_per_message = pos 50;
      max_known_peers = pos 1000;
      allowed_ports = pos 443 ∷ [];
    };
    rate_limit = record {
      max_connections_per_ip_per_minute = pos 10;
      max_messages_per_peer_per_second = pos 50;
      max_decode_errors_before_disconnect = pos 5;
    };
    reconnect = record {
      enabled = true;
      initial_delay_seconds = 4607182418800017408;
      max_delay_seconds = 4633641066610819072;
      max_attempts = pos 0;
      backoff_multiplier = 4611686018427387904;
    };
  };
  node = record {
    environment = Environment.production;
    data_dir = "./data";
    node_id = "";
    log_level = "INFO";
    require_external_keys = false;
  };
  genesis = record {
    prev_hash = "0000000000000000000000000000000000000000000000000000000000000000";
  };
  persistence = record {
    schema_version = pos 1;
    max_chain_file_bytes = pos 67108864;
    chain_file = "chain.json";
    meta_file = "meta.json";
    genesis_stakes_file = "genesis_stakes.json";
    keys_dir = "keys";
    private_key_file = "node.pem";
    p2p_identity_file = "p2p_identity.pem";
    store_keys_on_disk = true;
  };
  observability = record {
    enabled = false;
    host = "0.0.0.0";
    port = pos 9090;
    log_format = LogFormat.text;
    health_path = "/healthz";
    ready_path = "/readyz";
    metrics_path = "/metrics";
    min_peers_for_ready = pos 0;
    auth_enabled = false;
    auth_token = "";
  };
}

-- To unfold this is to unfold the readers of the settings.
unfoldable settings_code : Bool
unfolding parse_settings Network.parse_network Network.parse_limits Connections.parse_tls
    Connections.parse_peer_auth Connections.parse_rate_limit Connections.parse_peer_connect
    Connections.parse_allowed_ports Connections.parse_reconnect Local.parse_pow Local.parse_pos
    Local.parse_consensus Local.parse_node Local.parse_persistence Local.parse_observability
    Local.file_name Names.resolve_log_level Names.resolve_log_format Names.parse_environment
    Names.parse_consensus_type Names.parse_safe_basename Names.normalize_data_dir
    Names.parse_genesis Names.has_char Values.section Values.parse_bool Values.get_str
    Values.positive_int Values.positive_float validate_production_network bootstrap_peers_match
    url_scheme_matches_tls find guard bind text_length starts_with
settings_code = true

config_accepted : parse_settings ⦃env = toy⦄ none production_config ≡ ok accepted_settings
unfolding settings_code
config_accepted = refl

parse_settings-IsSound_example : IsSound ⦃env = toy⦄ accepted_settings
parse_settings-IsSound_example =
    parse_settings-IsSound ⦃env = toy⦄ none production_config accepted_settings config_accepted

-- An override of one setting of a section keeps the others.
abbrev override : Fields
override =
    field "peer_connect" (obj (field "max_known_peers" (int (pos 5)) end))
      (field "port" (int (pos 1)) end)

find-deep_merge_example :
    find "peer_connect" (deep_merge encrypted_network override)
    ≡ some (
        obj (
          field "allowed_ports"
            (arr (cons (int (pos 443)) nil))
            (field "max_known_peers" (int (pos 5)) end)))
unfolding find put deep_merge
find-deep_merge_example =
    find-deep_merge "peer_connect" encrypted_network override (refl, (refl, tt))
