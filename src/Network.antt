-- ===== src/Network.antt =====
-- useful_blockchain/network/: the decisions of the node on what its peers send. Sockets, tasks and
-- timers are not modelled.
pub mod Requests
pub mod Session
pub mod Answer
pub mod RateLimit
pub mod Tls
pub mod PeerAuth
pub mod Fork
pub mod Addresses
pub mod PeerUrl
pub mod Discovery
pub mod Messages
pub mod Peer
pub mod Server
pub mod Reconnect
