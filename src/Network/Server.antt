-- ===== src/Network/Server.antt =====
-- useful_blockchain/network/server.py: the connections that class P2PServer keeps. A peer's id is a
-- fresh uuid, given to the operation that registers the peer.
pub mod Bounded
use easyblockchain.Prelude.{
  ℕ, suc, ◌+◌, ◌≡◌, Bool, true, false, not, String, Option, none, some, List, [], ◌∷◌, length, leb,
  str_eq, ◌||◌, if◌then◌else◌,
}
use easyblockchain.Prelude.Dict.{Dict, lookup, contains, insert, erase}
use easyblockchain.Types.{RateLimitSettings, Environment}
use easyblockchain.Network.RateLimit.{SlidingWindowRateLimiter, new_limiter, allow}
use easyblockchain.Network.Tls.{starts_with, rejects_plain_websocket}
use easyblockchain.Network.Peer.{PeerConnection, new_connection}

-- the settings that the server reads
pub record ServerSettings : Type 0 where
  pub max_peers : ℕ
  pub max_message_bytes : ℕ
  pub require_auth : Bool
  pub tls_enabled : Bool
  pub rate_limit : RateLimitSettings

pub record P2PServer : Type 0 where
  pub settings : ServerSettings
  pub environment : Environment
  pub peers : Dict PeerConnection
  pub peer_urls : Dict String
  pub connection_limiter : SlidingWindowRateLimiter

-- `P2PServer(...)`
unfoldable pub new_server : ServerSettings → Environment → P2PServer
new_server settings environment = record {
  settings = settings;
  environment = environment;
  peers = [];
  peer_urls = [];
  connection_limiter = new_limiter settings.rate_limit.max_connections_per_ip_per_minute 60;
}

abbrev pub is_full : P2PServer → Bool
is_full self = leb self.settings.max_peers (length self.peers)

-- the connection of a client that the limiter has let pass
unfoldable pub register_inbound : P2PServer → String → String → P2PServer
register_inbound self client_ip peer_id = if is_full self then self else record self {
  peers =
      insert peer_id
        (new_connection peer_id self.settings.max_message_bytes self.settings.require_auth
          self.settings.rate_limit (some client_ip))
        self.peers;
}

-- `_handle_connection` up to the start of the listening task, at a time
unfoldable pub open_connection : P2PServer → String → String → ℕ → P2PServer
unfolding register_inbound
open_connection self client_ip peer_id now =
    let asked = allow self.connection_limiter client_ip now in
    let noted = record self { connection_limiter = asked.1 } in
    if not asked.0 then noted else register_inbound noted client_ip peer_id

-- `_handle_peer_closed`, and the end of `_handle_connection`
unfoldable pub handle_peer_closed : P2PServer → String → P2PServer
handle_peer_closed self peer_id = record self {
  peers = erase peer_id self.peers;
  peer_urls = erase peer_id self.peer_urls;
}

-- whether `connect_peer` goes on to resolve a URL
unfoldable pub may_connect : P2PServer → String → Bool
may_connect self url =
    if not (starts_with "ws://" url || starts_with "wss://" url)
    then false
    else if starts_with "ws://" url
    then (if rejects_plain_websocket self.settings.tls_enabled self.environment
        then false
        else not (is_full self))
    else not (is_full self)

-- `connect_peer` once the socket is open: the limit is checked again
unfoldable pub register_outbound : P2PServer → String → PeerConnection → String → Bool × P2PServer
register_outbound self peer_id peer url = if is_full self then (false, self) else (
  true,
  record self {
    peers = insert peer_id peer self.peers;
    peer_urls = insert peer_id url self.peer_urls;
  },
)

-- `stop`
unfoldable pub stop : P2PServer → P2PServer
stop self = record self { peers = []; peer_urls = [] }

unfoldable pub get_peer_url : P2PServer → String → Option String
get_peer_url self peer_id = lookup peer_id self.peer_urls

count_open : Dict PeerConnection → ℕ
count_open [] = 0
count_open ((id, peer) ∷ peers) =
    let others = count_open peers in if peer.closed then others else suc others

unfoldable pub active_peer_count : P2PServer → ℕ
unfolding count_open
active_peer_count self = count_open self.peers

-- What happens to a server, in any order: tasks take the lock one at a time.
pub data Happens : P2PServer → P2PServer → Type 0 where
  opened :
      (self : P2PServer) (client_ip peer_id : String) (now : ℕ)
      → Happens self (open_connection self client_ip peer_id now)
  connected :
      (self : P2PServer) (peer_id url : String) (peer : PeerConnection)
      → Happens self (register_outbound self peer_id peer url).1
  closed : (self : P2PServer) (peer_id : String) → Happens self (handle_peer_closed self peer_id)
  changed :
      (self : P2PServer) (peer_id : String) (peer : PeerConnection)
      → contains peer_id self.peers ≡ true
      → Happens self (record self { peers = insert peer_id peer self.peers })
  stopped : (self : P2PServer) → Happens self (stop self)

pub data Runs : P2PServer → P2PServer → Type 0 where
  idle : (self : P2PServer) → Runs self self
  more : {self next last : P2PServer} → Happens self next → Runs next last → Runs self last
