-- ===== src/Settings/Records.antt =====
-- useful_blockchain/types.py: the settings with all their fields, as settings.py builds them. An
-- int is any integer here; the modules that use a setting take it as a natural number where they
-- count with it.
use easyblockchain.Prelude.{ℕ, Bool, String, List}
use easyblockchain.Prelude.Int.{ℤ}
use easyblockchain.Python.Value.{Value}
use easyblockchain.Types.{PowSettings, ConsensusType, Environment, TlsSettings, GenesisSettings}

pub record PosSettings : Type 0 where
  pub epoch_length : ℤ
  pub min_stake : ℤ
  pub block_reward : ℤ

pub record ConsensusSettings : Type 0 where
  pub type : ConsensusType
  pub pow : PowSettings
  pub pos : PosSettings

pub record PeerAuthSettings : Type 0 where
  pub enabled : Bool
  pub max_skew_seconds : ℤ
  pub handshake_timeout_seconds : ℕ

pub record RateLimitSettings : Type 0 where
  pub max_connections_per_ip_per_minute : ℤ
  pub max_messages_per_peer_per_second : ℤ
  pub max_decode_errors_before_disconnect : ℤ

pub record ReconnectSettings : Type 0 where
  pub enabled : Bool
  pub initial_delay_seconds : ℕ
  pub max_delay_seconds : ℕ
  pub max_attempts : ℤ
  pub backoff_multiplier : ℕ

pub record PeerConnectSettings : Type 0 where
  pub allow_private_ips : Bool
  pub blocked_cidrs : List String
  pub max_peers_per_message : ℤ
  pub max_known_peers : ℤ
  pub allowed_ports : List ℤ

-- the five limits that must be finite and positive
pub record Limits : Type 0 where
  pub mdns_resolution_timeout_seconds : ℕ
  pub mdns_resolution_interval_seconds : ℕ
  pub mdns_max_pending_services : ℤ
  pub chain_sync_max_blocks : ℤ
  pub chain_sync_max_bytes : ℤ

-- the numbers that stand together in NetworkSettings, from `max_peers` on
pub record Numbers : Type 0 where
  pub max_peers : ℤ
  pub max_message_bytes : ℤ
  pub chain_sync_batch_size : ℤ
  pub ping_interval_seconds : ℤ
  pub connection_timeout_seconds : ℤ
  pub broadcast_send_timeout_seconds : ℤ
  pub chain_sync_timeout_seconds : ℤ
  pub shutdown_peer_close_timeout_seconds : ℤ
  pub shutdown_server_wait_timeout_seconds : ℤ
  pub pong_timeout_seconds : ℤ

pub record NetworkSettings : Type 0 where
  pub limits : Limits
  pub host : String
  pub port : ℤ
  pub bootstrap_peers : List Value
  pub mdns_enabled : Bool
  pub mdns_service_name : String
  pub numbers : Numbers
  pub tls : TlsSettings
  pub peer_auth : PeerAuthSettings
  pub peer_connect : PeerConnectSettings
  pub rate_limit : RateLimitSettings
  pub reconnect : ReconnectSettings

pub data LogFormat : Type 0 where
  text json : LogFormat

pub record ObservabilitySettings : Type 0 where
  pub enabled : Bool
  pub host : String
  pub port : ℤ
  pub log_format : LogFormat
  pub health_path : String
  pub ready_path : String
  pub metrics_path : String
  pub min_peers_for_ready : ℤ
  pub auth_enabled : Bool
  pub auth_token : String

pub record NodeSettings : Type 0 where
  pub environment : Environment
  pub data_dir : String
  pub node_id : String
  pub log_level : String
  pub require_external_keys : Bool

pub record PersistenceSettings : Type 0 where
  pub schema_version : ℤ
  pub max_chain_file_bytes : ℤ
  pub chain_file : String
  pub meta_file : String
  pub genesis_stakes_file : String
  pub keys_dir : String
  pub private_key_file : String
  pub p2p_identity_file : String
  pub store_keys_on_disk : Bool

pub record AppSettings : Type 0 where
  pub consensus : ConsensusSettings
  pub network : NetworkSettings
  pub node : NodeSettings
  pub genesis : GenesisSettings
  pub persistence : PersistenceSettings
  pub observability : ObservabilitySettings
