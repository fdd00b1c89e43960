-- ===== src/Network/Discovery.antt =====
-- useful_blockchain/network/discovery.py: the bounded list of known peers, in order of insertion.
pub mod Bounded
use easyblockchain.Prelude.{
  ℕ, ◌-◌, Bool, true, false, not, ◌||◌, String, Option, none, some, List, [], ◌∷◌, ◌++◌, length,
  take, drop, str_eq, if◌then◌else◌,
}
use easyblockchain.Types.{Environment, NetworkSettings}
use easyblockchain.Network.Addresses.{Addresses}
use easyblockchain.Network.PeerUrl.{validate_peer_url}

pub record PeerDiscovery : Type 0 where
  pub settings : NetworkSettings
  pub local_url : String
  pub environment : Environment
  -- the keys of the dict
  pub peers : List String

-- the keys without one
unfoldable pub without : String → List String → List String
without url [] = []
without url (u ∷ urls) = let rest = without url urls in if str_eq u url then rest else u ∷ rest

-- `while len(peers) > max_known`: the oldest are removed
abbrev pub evict : ℕ → List String → List String
evict max_known urls = drop (length urls - max_known) urls

module _ ⦃lib : Addresses⦄ where
  accepted : PeerDiscovery → String → Bool
  accepted self url =
      if str_eq url "" || str_eq url self.local_url
      then false
      else elim (validate_peer_url url self.settings self.environment) [
        | none ↦ false
        | some u ↦ true
      ]

  unfoldable pub add_peer : PeerDiscovery → String → PeerDiscovery
  unfolding accepted
  add_peer self url = if not (accepted self url) then self else record self {
    peers = evict self.settings.peer_connect.max_known_peers (without url self.peers ++ url ∷ []);
  }

  add_each : PeerDiscovery → List String → PeerDiscovery
  add_each self [] = self
  add_each self (url ∷ urls) = add_each (add_peer self url) urls

  unfoldable pub add_peers : PeerDiscovery → List String → PeerDiscovery
  unfolding add_each
  add_peers self urls = add_each self (take self.settings.peer_connect.max_peers_per_message urls)

  unfoldable pub new_discovery : NetworkSettings → String → Environment → PeerDiscovery
  unfolding add_each
  new_discovery settings local_url environment =
      add_each
        (record {
          settings = settings;
          local_url = local_url;
          environment = environment;
          peers = [];
        })
        settings.bootstrap_peers
