-- ===== src/Settings/Local.antt =====
-- useful_blockchain/settings.py: the sections on consensus, the node, its files and its health
-- server.
use easyblockchain.Prelude.{
  true, false, not, ◌&&◌, String, Option, none, some, str_eq, if◌then◌else◌,
}
use easyblockchain.Prelude.Int.{pos}
use easyblockchain.Python.{Result, ok, value_error, guard, ◌>>=◌, ◌>>◌}
use easyblockchain.Python.Value.{str, int, float, Fields}
use easyblockchain.Python.Fields.{get, get_or}
use easyblockchain.Platform.{Platform}
use easyblockchain.Dynamic.{int_of}
use easyblockchain.Types.{PowSettings}
use easyblockchain.Settings.Values.{float_of, text_of, parse_bool, get_str, section}
use easyblockchain.Settings.Connections.{float_2}
use easyblockchain.Settings.Names.{
  resolve_log_level, resolve_log_format, parse_environment, parse_consensus_type,
  parse_safe_basename, normalize_data_dir,
}
use easyblockchain.Settings.Records.{
  PosSettings, ConsensusSettings, NodeSettings, PersistenceSettings, ObservabilitySettings,
}

module _ ⦃env : Platform⦄ where
  unfoldable pub parse_pow : Fields → Result PowSettings
  parse_pow mapping = do
    difficulty ← int_of (get_or "initial_difficulty" mapping (int (pos 4)))
    interval ← int_of (get_or "adjustment_interval" mapping (int (pos 10)))
    factor ← float_of (get_or "max_adjustment_factor" mapping (float float_2))
    iterations ← int_of (get_or "max_mining_iterations" mapping (int (pos 1000000)))
    seconds ← int_of (get_or "target_block_time_seconds" mapping (int (pos 10)))
    ok (record {
      initial_difficulty = difficulty;
      adjustment_interval = interval;
      max_adjustment_factor = factor;
      max_mining_iterations = iterations;
      target_block_time_seconds = seconds;
    })

  unfoldable pub parse_pos : Fields → Result PosSettings
  parse_pos mapping = do
    epoch ← int_of (get_or "epoch_length" mapping (int (pos 10)))
    stake ← int_of (get_or "min_stake" mapping (int (pos 100)))
    reward ← int_of (get_or "block_reward" mapping (int (pos 10)))
    ok (record { epoch_length = epoch; min_stake = stake; block_reward = reward })

  unfoldable pub parse_consensus : Fields → Result ConsensusSettings
  parse_consensus mapping = do
    type ← parse_consensus_type mapping
    pow_section ← section mapping "pow"
    pow ← parse_pow pow_section
    pos_section ← section mapping "pos"
    stake ← parse_pos pos_section
    ok (record { type = type; pow = pow; pos = stake })

  unfoldable pub parse_node : Fields → Result NodeSettings
  parse_node mapping = do
    let log_level = text_of (get_or "log_level" mapping (str "INFO"))
    level ← resolve_log_level log_level
    environment ← parse_environment (text_of (get_or "environment" mapping (str "development")))
    external_keys ← parse_bool (get "require_external_keys" mapping) false
    ok (record {
      environment = environment;
      data_dir = normalize_data_dir (get_str mapping "data_dir" "./data");
      node_id = get_str mapping "node_id" "";
      log_level = log_level;
      require_external_keys = external_keys;
    })

  -- `_parse_safe_basename(str(data.get(name, default)), default, ...)`
  unfoldable pub file_name : Fields → String → String → Result String
  file_name mapping name default =
      parse_safe_basename (text_of (get_or name mapping (str default))) default

  unfoldable pub parse_persistence : Fields → Result PersistenceSettings
  parse_persistence mapping = do
    version ← int_of (get_or "schema_version" mapping (int (pos 1)))
    bytes ← int_of (get_or "max_chain_file_bytes" mapping (int (pos 67108864)))
    chain_file ← file_name mapping "chain_file" "chain.json"
    meta_file ← file_name mapping "meta_file" "meta.json"
    stakes_file ← file_name mapping "genesis_stakes_file" "genesis_stakes.json"
    keys_dir ← file_name mapping "keys_dir" "keys"
    key_file ← file_name mapping "private_key_file" "node.pem"
    identity_file ← file_name mapping "p2p_identity_file" "p2p_identity.pem"
    store_keys ← parse_bool (get "store_keys_on_disk" mapping) true
    ok (record {
      schema_version = version;
      max_chain_file_bytes = bytes;
      chain_file = chain_file;
      meta_file = meta_file;
      genesis_stakes_file = stakes_file;
      keys_dir = keys_dir;
      private_key_file = key_file;
      p2p_identity_file = identity_file;
      store_keys_on_disk = store_keys;
    })

  -- the token of the process's environment, unless it is missing or empty
  auth_token_of : Option String → Fields → String
  auth_token_of none mapping = text_of (get_or "auth_token" mapping (str ""))
  auth_token_of (some token) mapping =
      if str_eq token "" then text_of (get_or "auth_token" mapping (str "")) else token

  -- `_parse_observability`, with the value of EASYBLOCKCHAIN_OBSERVABILITY_TOKEN
  unfoldable pub parse_observability : Option String → Fields → Result ObservabilitySettings
  unfolding auth_token_of
  parse_observability variable mapping = do
    log_format ← resolve_log_format (text_of (get_or "log_format" mapping (str "text")))
    auth_enabled ← parse_bool (get "auth_enabled" mapping) false
    let auth_token = auth_token_of variable mapping
    guard (not (auth_enabled && str_eq auth_token "")) value_error
    enabled ← parse_bool (get "enabled" mapping) false
    port ← int_of (get_or "port" mapping (int (pos 9090)))
    peers ← int_of (get_or "min_peers_for_ready" mapping (int (pos 0)))
    ok (record {
      enabled = enabled;
      host = text_of (get_or "host" mapping (str "0.0.0.0"));
      port = port;
      log_format = log_format;
      health_path = text_of (get_or "health_path" mapping (str "/healthz"));
      ready_path = text_of (get_or "ready_path" mapping (str "/readyz"));
      metrics_path = text_of (get_or "metrics_path" mapping (str "/metrics"));
      min_peers_for_ready = peers;
      auth_enabled = auth_enabled;
      auth_token = auth_token;
    })
