-- ===== src/Network/Discovery/Bounded.antt =====
-- What the list of known peers holds.
use easyblockchain.Prelude.{
  ℕ, suc, ◌-◌, ◌≤◌, ◌≡◌, ◌∙◌, ap, some, true, false, String, List, [], ◌∷◌, ◌++◌, length, take,
  drop, length-drop, str_eq, arith, Bool-cases, inl, inr, Option-cases, zero,
}
use easyblockchain.Types.{Environment, NetworkSettings}
use easyblockchain.Network.Addresses.{Addresses}
use easyblockchain.Network.PeerUrl.{validate_peer_url}
use easyblockchain.Network.PeerUrl.Sound.{IsAllowedPeer, validate_peer_url-IsAllowedPeer, Each}
use easyblockchain.Network.Discovery.{
  PeerDiscovery, without, evict, accepted, add_peer, add_each, add_peers, new_discovery,
}

module _ {κ} (P : String → Type κ) where
  Each-without : (url : String) (urls : List String) → Each P urls → Each P (without url urls)
  unfolding without
  Each-without url [] h = tt
  Each-without url (u ∷ urls) h = elim (Bool-cases (str_eq u url)) [
    | inl same ↦ rw same (Each-without url urls h.1)
    | inr other ↦ rw other (h.0, Each-without url urls h.1)
  ]

  Each-append_one :
      (urls : List String) (url : String) → Each P urls → P url → Each P (urls ++ url ∷ [])
  Each-append_one [] url h p = (p, tt)
  Each-append_one (u ∷ urls) url h p = (h.0, Each-append_one urls url h.1 p)

  Each-drop : (n : ℕ) (urls : List String) → Each P urls → Each P (drop n urls)
  Each-drop zero urls h = h
  Each-drop (suc n) [] h = tt
  Each-drop (suc n) (u ∷ urls) h = Each-drop n urls h.1

module _ ⦃lib : Addresses⦄ where
  -- A peer of the list: not the node itself, and one that it may connect to.
  pub record IsPeer (settings : NetworkSettings) (local_url : String) (environment : Environment)
      (url : String) : Type 0 where
    pub remote : str_eq url local_url ≡ false
    pub checked : validate_peer_url url settings environment ≡ some url
    pub allowed : IsAllowedPeer settings url environment

  -- The list is within its bound, and holds only such peers.
  pub record IsBounded (self : PeerDiscovery) : Type 0 where
    pub few : length self.peers ≤ self.settings.peer_connect.max_known_peers
    pub each : Each (IsPeer self.settings self.local_url self.environment) self.peers

  accepted-IsPeer :
      (self : PeerDiscovery) (url : String)
      → accepted self url ≡ true
      → IsPeer self.settings self.local_url self.environment url
  unfolding accepted
  accepted-IsPeer self url h =
      elim (Option-cases (validate_peer_url url self.settings self.environment)) [
        | inl e ↦ absurd (ground (arith, e))
        | inr (u, e) ↦
            let (same, allowed) =
              validate_peer_url-IsAllowedPeer self.settings url u self.environment e in
            record { remote = ground arith; checked = e ∙ ap some same; allowed = allowed }
      ]

  evict-le : (n : ℕ) (urls : List String) → length (evict n urls) ≤ n
  evict-le n urls = omega (arith, length-drop (length urls - n) urls)

  -- Whatever URL is added, the list stays within `max_known_peers` and holds only URLs that the
  -- check of peer URLs lets through, and never the node's own.
  pub add_peer-IsBounded :
      (self : PeerDiscovery) (url : String) → IsBounded self → IsBounded (add_peer self url)
  unfolding add_peer
  add_peer-IsBounded self url h = elim (Bool-cases (accepted self url)) [
    | inr denied ↦ rw denied h
    | inl granted ↦ rw granted (record {
      few =
          evict-le self.settings.peer_connect.max_known_peers (without url self.peers ++ url ∷ []);
      each = Each-drop _ _ _ (
          Each-append_one _ (without url self.peers) url (Each-without _ url self.peers h.each)
            (accepted-IsPeer self url granted));
    })
  ]

  add_each-IsBounded :
      (self : PeerDiscovery) (urls : List String) → IsBounded self → IsBounded (add_each self urls)
  unfolding add_each
  add_each-IsBounded self [] h = h
  add_each-IsBounded self (url ∷ urls) h =
      add_each-IsBounded (add_peer self url) urls (add_peer-IsBounded self url h)

  new_discovery-IsBounded :
      (settings : NetworkSettings) (local_url : String) (environment : Environment)
      → IsBounded (new_discovery settings local_url environment)
  unfolding new_discovery
  new_discovery-IsBounded settings local_url environment =
      add_each-IsBounded _ settings.bootstrap_peers (record { few = omega arith; each = tt })

  -- the discovery after these PEERS messages
  abbrev pub after_messages : PeerDiscovery → List (List String) → PeerDiscovery
  after_messages self [] = self
  after_messages self (urls ∷ messages) = after_messages (add_peers self urls) messages

  after_messages-IsBounded :
      (self : PeerDiscovery) (messages : List (List String))
      → IsBounded self
      → IsBounded (after_messages self messages)
  unfolding add_peers
  after_messages-IsBounded self [] h = h
  after_messages-IsBounded self (urls ∷ messages) h =
      after_messages-IsBounded (add_peers self urls) messages
        (add_each-IsBounded self (take self.settings.peer_connect.max_peers_per_message urls) h)

  -- Whatever PEERS messages a node has received, its list of known peers is within
  -- `max_known_peers`, and every URL on it passes the check of peer URLs and is not the node's own.
  pub add_peers-IsBounded :
      (settings : NetworkSettings) (local_url : String) (environment : Environment)
      (messages : List (List String))
      → IsBounded (after_messages (new_discovery settings local_url environment) messages)
  add_peers-IsBounded settings local_url environment messages =
      after_messages-IsBounded (new_discovery settings local_url environment) messages
        (new_discovery-IsBounded settings local_url environment)
