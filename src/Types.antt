-- ===== src/Types.antt =====
-- useful_blockchain/types.py: settings and results as records. Sizes, counts, stakes and whole
-- seconds are natural numbers, difficulties and heights that a peer may send are integers, and a
-- float setting is its bit pattern.
pub mod Check
use easyblockchain.Prelude.{ℕ, Bool, String, Option, none, some, List, true, false}
use easyblockchain.Prelude.Int.{ℤ}
use easyblockchain.Python.Value.{Fields}

-- A block as a peer or a file delivers it.
abbrev pub Block : Type 0
Block = Fields

pub record ChainVerificationResult : Type 0 where
  pub valid : Bool
  pub failed_at_index : Option ℕ
  pub reason : String

abbrev pub chain_valid : ChainVerificationResult
chain_valid = record { valid = true; failed_at_index = none; reason = "" }

abbrev pub chain_invalid : ℕ → String → ChainVerificationResult
chain_invalid i r = record { valid = false; failed_at_index = some i; reason = r }

pub record PowSettings : Type 0 where
  pub initial_difficulty : ℤ
  pub adjustment_interval : ℤ
  pub max_adjustment_factor : ℕ
  pub max_mining_iterations : ℤ
  pub target_block_time_seconds : ℤ

pub record PosSettings : Type 0 where
  pub epoch_length : ℕ
  pub min_stake : ℕ
  pub block_reward : ℕ

pub data ConsensusType : Type 0 where
  pow pos : ConsensusType

pub record ConsensusSettings : Type 0 where
  pub type : ConsensusType
  pub pow : PowSettings
  pub pos : PosSettings

pub record GenesisSettings : Type 0 where
  pub prev_hash : String

pub data Environment : Type 0 where
  development production : Environment

pub record TlsSettings : Type 0 where
  pub enabled : Bool
  pub cert_file : String
  pub key_file : String
  pub ca_file : String
  pub verify_peer : Bool

pub record PeerAuthSettings : Type 0 where
  pub enabled : Bool
  pub max_skew_seconds : ℕ

pub record RateLimitSettings : Type 0 where
  pub max_connections_per_ip_per_minute : ℕ
  pub max_messages_per_peer_per_second : ℕ
  pub max_decode_errors_before_disconnect : ℕ

pub record PeerConnectSettings : Type 0 where
  pub allow_private_ips : Bool
  pub blocked_cidrs : List String
  pub max_peers_per_message : ℕ
  pub max_known_peers : ℕ
  pub allowed_ports : List ℕ

pub record NetworkSettings : Type 0 where
  pub bootstrap_peers : List String
  pub max_peers : ℕ
  pub chain_sync_batch_size : ℕ
  pub chain_sync_max_blocks : ℕ
  pub chain_sync_max_bytes : ℕ
  pub tls : TlsSettings
  pub peer_connect : PeerConnectSettings

pub record NodeSettings : Type 0 where
  pub environment : Environment
