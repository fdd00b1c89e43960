-- ===== src/Settings/Network.antt =====
-- useful_blockchain/settings.py: the section `network`.
use easyblockchain.Prelude.{ℕ, false, List, []}
use easyblockchain.Prelude.Int.{pos}
use easyblockchain.Python.{Result, ok, err, value_error, ◌>>=◌}
use easyblockchain.Python.Value.{Value, null, arr, str, int, float, Fields, to_list}
use easyblockchain.Python.Fields.{get, get_or}
use easyblockchain.Platform.{Platform}
use easyblockchain.Dynamic.{int_of}
use easyblockchain.Settings.Values.{text_of, parse_bool, section, positive_float, positive_int}
use easyblockchain.Settings.Records.{Limits, Numbers, NetworkSettings}
use easyblockchain.Settings.Connections.{
  float_1, parse_tls, parse_peer_auth, parse_rate_limit, parse_peer_connect, parse_reconnect,
}

-- the bit pattern of 0.2
abbrev float_fifth : ℕ
float_fifth = 4596373779694328218

abbrev peers_of : Value → Result (List Value)
peers_of null = ok []
peers_of (arr items) = ok (to_list items)
peers_of _ = err value_error

module _ ⦃env : Platform⦄ where
  -- the loop over the names of the limits
  unfoldable pub parse_limits : Fields → Result Limits
  parse_limits mapping = do
    timeout ← positive_float (get_or "mdns_resolution_timeout_seconds" mapping (float float_1))
    interval ←
        positive_float (get_or "mdns_resolution_interval_seconds" mapping (float float_fifth))
    pending ← positive_int (get_or "mdns_max_pending_services" mapping (int (pos 100)))
    blocks ← positive_int (get_or "chain_sync_max_blocks" mapping (int (pos 10000)))
    bytes ← positive_int (get_or "chain_sync_max_bytes" mapping (int (pos 67108864)))
    ok (record {
      mdns_resolution_timeout_seconds = timeout;
      mdns_resolution_interval_seconds = interval;
      mdns_max_pending_services = pending;
      chain_sync_max_blocks = blocks;
      chain_sync_max_bytes = bytes;
    })

  parse_numbers : Fields → Result Numbers
  parse_numbers mapping = do
    peers ← int_of (get_or "max_peers" mapping (int (pos 25)))
    message ← int_of (get_or "max_message_bytes" mapping (int (pos 1048576)))
    batch ← int_of (get_or "chain_sync_batch_size" mapping (int (pos 100)))
    ping ← int_of (get_or "ping_interval_seconds" mapping (int (pos 30)))
    connection ← int_of (get_or "connection_timeout_seconds" mapping (int (pos 10)))
    broadcast ← int_of (get_or "broadcast_send_timeout_seconds" mapping (int (pos 5)))
    sync ← int_of (get_or "chain_sync_timeout_seconds" mapping (int (pos 10)))
    close ← int_of (get_or "shutdown_peer_close_timeout_seconds" mapping (int (pos 2)))
    wait ← int_of (get_or "shutdown_server_wait_timeout_seconds" mapping (int (pos 3)))
    pong ← int_of (get_or "pong_timeout_seconds" mapping (int (pos 90)))
    ok (record {
      max_peers = peers;
      max_message_bytes = message;
      chain_sync_batch_size = batch;
      ping_interval_seconds = ping;
      connection_timeout_seconds = connection;
      broadcast_send_timeout_seconds = broadcast;
      chain_sync_timeout_seconds = sync;
      shutdown_peer_close_timeout_seconds = close;
      shutdown_server_wait_timeout_seconds = wait;
      pong_timeout_seconds = pong;
    })

  unfoldable pub parse_network : Fields → Result NetworkSettings
  unfolding parse_numbers
  parse_network mapping = do
    limits ← parse_limits mapping
    bootstrap_peers ← peers_of (get "bootstrap_peers" mapping)
    port ← int_of (get_or "port" mapping (int (pos 8765)))
    mdns_enabled ← parse_bool (get "mdns_enabled" mapping) false
    numbers ← parse_numbers mapping
    tls_section ← section mapping "tls"
    tls ← parse_tls tls_section
    auth_section ← section mapping "peer_auth"
    peer_auth ← parse_peer_auth auth_section
    connect_section ← section mapping "peer_connect"
    peer_connect ← parse_peer_connect connect_section
    rate_section ← section mapping "rate_limit"
    rate_limit ← parse_rate_limit rate_section
    reconnect_section ← section mapping "reconnect"
    reconnect ← parse_reconnect reconnect_section
    ok (record {
      limits = limits;
      host = text_of (get_or "host" mapping (str "0.0.0.0"));
      port = port;
      bootstrap_peers = bootstrap_peers;
      mdns_enabled = mdns_enabled;
      mdns_service_name =
          text_of (get_or "mdns_service_name" mapping (str "_easyblockchain._tcp.local."));
      numbers = numbers;
      tls = tls;
      peer_auth = peer_auth;
      peer_connect = peer_connect;
      rate_limit = rate_limit;
      reconnect = reconnect;
    })
