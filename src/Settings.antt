-- ===== src/Settings.antt =====
-- useful_blockchain/settings.py: a configuration as a whole. The YAML file is read by a library.
pub mod Values
pub mod Records
pub mod Connections
pub mod Network
pub mod Names
pub mod Local
pub mod Bounds
pub mod Sound
pub mod Merge
use easyblockchain.Prelude.{String, Option}
use easyblockchain.Python.{Result, ok, err, value_error, ◌>>=◌, ◌>>◌}
use easyblockchain.Python.Value.{Value, null, obj, Fields, end}
use easyblockchain.Platform.{Platform}
use easyblockchain.Network.Tls.{validate_production_network}
use easyblockchain.Settings.Values.{section, deep_merge}
use easyblockchain.Settings.Records.{AppSettings}
use easyblockchain.Settings.Network.{parse_network}
use easyblockchain.Settings.Names.{parse_genesis}
use easyblockchain.Settings.Local.{
  parse_consensus, parse_node, parse_persistence, parse_observability,
}

-- What `load_yaml_config` makes of the document that the YAML library has read.
abbrev pub load_yaml_config : Value → Result Fields
load_yaml_config null = ok end
load_yaml_config (obj f) = ok f
load_yaml_config _ = err value_error

module _ ⦃env : Platform⦄ where
  -- with the value of EASYBLOCKCHAIN_OBSERVABILITY_TOKEN
  unfoldable pub parse_settings : Option String → Fields → Result AppSettings
  parse_settings variable mapping = do
    network_section ← section mapping "network"
    network ← parse_network network_section
    node_section ← section mapping "node"
    node ← parse_node node_section
    consensus_section ← section mapping "consensus"
    consensus ← parse_consensus consensus_section
    genesis_section ← section mapping "genesis"
    genesis ← parse_genesis genesis_section
    persistence_section ← section mapping "persistence"
    persistence ← parse_persistence persistence_section
    observability_section ← section mapping "observability"
    observability ← parse_observability variable observability_section
    validate_production_network node.environment network.tls network.peer_connect.allow_private_ips
        network.bootstrap_peers
    ok (record {
      consensus = consensus;
      network = network;
      node = node;
      genesis = genesis;
      persistence = persistence;
      observability = observability;
    })

  -- `load_settings_with_overrides` on the document of an existing file
  unfoldable pub load_settings_with_overrides : Option String → Value → Fields → Result AppSettings
  load_settings_with_overrides variable document overrides = do
    raw ← load_yaml_config document
    parse_settings variable (deep_merge raw overrides)
