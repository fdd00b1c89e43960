-- ===== src/Network/Server/Bounded.antt =====
-- A server keeps no more peers than it may, and no URL without its peer.
use easyblockchain.Prelude.{
  ◌||◌, ℕ, ◌≤◌, ◌≡◌, refl, Bool, true, false, not, Bool-cases, inl, inr, String, length, leb,
  str_eq, arith,
}
use easyblockchain.Prelude.Dict.{
  Dict, contains, insert, erase, contains-insert, contains-erase, length-insert, length-erase-le,
}
use easyblockchain.Types.{Environment}
use easyblockchain.Network.RateLimit.{allow}
use easyblockchain.Network.Peer.{PeerConnection}
use easyblockchain.Network.Server.{
  P2PServer, ServerSettings, is_full, new_server, open_connection, register_inbound,
  handle_peer_closed, register_outbound, stop, Happens, opened, connected, closed, changed, stopped,
  Runs, idle, more,
}

-- where a key has a URL, it has a peer
abbrev pub is_peer : P2PServer → String → Bool
is_peer self k = not (contains k self.peer_urls) || contains k self.peers

pub record IsBounded (self : P2PServer) : Type 0 where
  pub few : length self.peers ≤ self.settings.max_peers
  pub urls : (k : String) → is_peer self k ≡ true

inserted_few :
    {V : Type 0} (max : ℕ) (k : String) (v : V) (d : Dict V)
    → leb max (length d) ≡ false
    → length (insert k v d) ≤ max
inserted_few max k v d h = ground (arith, length-insert k v d)

insert_both :
    {V W : Type 0} (k j : String) (v : V) (w : W) (d : Dict V) (e : Dict W)
    → (not (contains j e) || contains j d) ≡ true
    → (not (contains j (insert k w e)) || contains j (insert k v d)) ≡ true
insert_both k j v w d e h = elim (Bool-cases (str_eq k j)) [
  | inl t ↦ rw (contains-insert k j v d, contains-insert k j w e, t) refl
  | inr t ↦ rw (contains-insert k j v d, contains-insert k j w e, t) h
]

insert_one :
    {V W : Type 0} (k j : String) (v : V) (d : Dict V) (e : Dict W)
    → (not (contains j e) || contains j d) ≡ true
    → (not (contains j e) || contains j (insert k v d)) ≡ true
insert_one k j v d e h = elim (Bool-cases (contains j d)) [
  | inl t ↦ ground (arith, contains-insert k j v d)
  | inr t ↦ ground (arith, contains-insert k j v d)
]

erase_both :
    {V W : Type 0} (k j : String) (d : Dict V) (e : Dict W)
    → (not (contains j e) || contains j d) ≡ true
    → (not (contains j (erase k e)) || contains j (erase k d)) ≡ true
erase_both k j d e h = elim (Bool-cases (str_eq k j)) [
  | inl t ↦ rw (contains-erase k j d, contains-erase k j e, t) refl
  | inr t ↦ rw (contains-erase k j d, contains-erase k j e, t) h
]

register_inbound-IsBounded :
    (self : P2PServer) (client_ip peer_id : String)
    → IsBounded self
    → IsBounded (register_inbound self client_ip peer_id)
unfolding register_inbound
register_inbound-IsBounded self client_ip peer_id b = elim (Bool-cases (is_full self)) [
  | inl t ↦ rw t b
  | inr t ↦ rw t (record {
    few = inserted_few _ peer_id _ self.peers t;
    urls = λ k. insert_one peer_id k _ self.peers self.peer_urls (b.urls k);
  })
]

open_connection-IsBounded :
    (self : P2PServer) (client_ip peer_id : String) (now : ℕ)
    → IsBounded self
    → IsBounded (open_connection self client_ip peer_id now)
unfolding open_connection
open_connection-IsBounded self client_ip peer_id now b =
    elim (Bool-cases (allow self.connection_limiter client_ip now).0) [
      | inl t ↦ rw t (register_inbound-IsBounded noted client_ip peer_id noted_bounded)
      | inr t ↦ rw t noted_bounded
    ]
  where
    noted : P2PServer
    noted = record self { connection_limiter = (allow self.connection_limiter client_ip now).1 }

    noted_bounded : IsBounded noted
    noted_bounded = record { few = b.few; urls = b.urls }

register_outbound-IsBounded :
    (self : P2PServer) (peer_id : String) (peer : PeerConnection) (url : String)
    → IsBounded self
    → IsBounded (register_outbound self peer_id peer url).1
unfolding register_outbound
register_outbound-IsBounded self peer_id peer url b = elim (Bool-cases (is_full self)) [
  | inl t ↦ rw t b
  | inr t ↦ rw t (record {
    few = inserted_few _ peer_id _ self.peers t;
    urls = λ k. insert_both peer_id k _ _ self.peers self.peer_urls (b.urls k);
  })
]

Happens-IsBounded : {self next : P2PServer} → Happens self next → IsBounded self → IsBounded next
unfolding handle_peer_closed stop contains
Happens-IsBounded (opened self client_ip peer_id now) b =
    open_connection-IsBounded self client_ip peer_id now b
Happens-IsBounded (connected self peer_id url peer) b =
    register_outbound-IsBounded self peer_id peer url b
Happens-IsBounded (closed self peer_id) b = record {
  few = omega (arith, b.few, length-erase-le peer_id self.peers);
  urls = λ k. erase_both peer_id k self.peers self.peer_urls (b.urls k);
}
Happens-IsBounded (changed self peer_id peer known) b = record {
  few = ground (arith, b.few, length-insert peer_id peer self.peers);
  urls = λ k. insert_one peer_id k _ self.peers self.peer_urls (b.urls k);
}
Happens-IsBounded (stopped self) b = record { few = omega arith; urls = λ k. refl }

Runs-kept : {self last : P2PServer} → Runs self last → IsBounded self → IsBounded last
Runs-kept (idle self) b = b
Runs-kept (more step later) b = Runs-kept later (Happens-IsBounded step b)

-- However connections are opened, made, changed and closed, in any order, a server that was new has
-- at most `max_peers` peers, and every peer with a URL is one of them.
pub Runs-IsBounded :
    (settings : ServerSettings) (environment : Environment) (last : P2PServer)
    → Runs (new_server settings environment) last
    → IsBounded last
unfolding new_server contains
Runs-IsBounded settings environment last run =
    Runs-kept run (record { few = omega arith; urls = λ k. refl })
