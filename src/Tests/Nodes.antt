-- ===== src/Tests/Nodes.antt =====
-- What nodes send to each other.
use easyblockchain.Prelude.{
  ℕ, List, ◌≡◌, ◌≢◌, ◌⊎◌, refl, inl, none, some, [], ◌∷◌, ◌++◌, false, true, String, str_eq,
  if◌then◌else◌, arith,
}
use easyblockchain.Prelude.Int.{pos}
use easyblockchain.Python.{ok}
use easyblockchain.Python.Value.{null, str, int, obj, arr, nil, cons, end, field, Fields}
use easyblockchain.Python.Fields.{find}
use easyblockchain.Types.{Block, NetworkSettings, PeerAuthSettings, Environment}
use easyblockchain.BlockChain.{BlockChain, replace_chain}
use easyblockchain.BlockChain.Replace.{IsReplaced, replace_chain-IsReplaced}
use easyblockchain.Signature.{with_private_key}
use easyblockchain.Network.Addresses.{Addresses}
use easyblockchain.Network.Answer.{answer_get_chain, chain_request}
use easyblockchain.Network.Session.{ChainSyncSession, accept_chain_batch}
use easyblockchain.Network.Session.Sound.{IsNext, IsSession, accept_chain_batch-IsSession}
use easyblockchain.Network.Session.Honest.{honest_blocks, answer_get_chain-accepted}
use easyblockchain.Network.Fork.{resolve_fork}
use easyblockchain.Network.Fork.Sound.{Outcome, resolve_fork-Outcome}
use easyblockchain.Network.PeerUrl.{
  validate_peer_url, checked_port, check_target, parse_peer_url, is_bad_url, resolve_peer_ips,
  has_ambiguous_ipv4_notation, peer_ips_allowed, is_restricted_ip, normalize_ip, resolve_peer_port,
  parse_blocked_networks, default_port_for_scheme, is_address,
}
use easyblockchain.Network.PeerUrl.Sound.{IsAllowedPeer, validate_peer_url-IsAllowedPeer}
use easyblockchain.Network.Tls.{starts_with, url_scheme_matches_tls, rejects_plain_websocket}
use easyblockchain.Network.Discovery.{new_discovery}
use easyblockchain.Network.Discovery.Bounded.{IsBounded, after_messages, add_peers-IsBounded}
use easyblockchain.Network.PeerAuth.{build_hello_payload, verify_hello}
use easyblockchain.Network.PeerAuth.Accepted.{build_hello_payload-verify_hello}
use easyblockchain.Network.RateLimit.{new_limiter}
use easyblockchain.Network.RateLimit.Unforgetting.{answers, unforgetting, answers-unforgetting}
use easyblockchain.Tests.Toy.{toy, toy-CryptoLaws}
use easyblockchain.Consensus.Protocol.{proof_of_work}
use easyblockchain.Tests.Chains.{work, empty_chain, mined}

abbrev net : NetworkSettings
net = record {
  bootstrap_peers = "wss://h" ∷ [];
  max_peers = 4;
  chain_sync_batch_size = 3;
  chain_sync_max_blocks = 10;
  chain_sync_max_bytes = 100;
  tls = record {
    enabled = true;
    cert_file = "c";
    key_file = "k";
    ca_file = "a";
    verify_peer = true;
  };
  peer_connect = record {
    allow_private_ips = false;
    blocked_cidrs = "b" ∷ [];
    max_peers_per_message = 2;
    max_known_peers = 3;
    allowed_ports = 443 ∷ [];
  };
}

-- One host, `h`, with one address.
abbrev one_host : Addresses
one_host = record {
  urlparse = λ s. some (record {
    scheme = "wss";
    hostname = some "h";
    username = none;
    password = none;
    path = "";
    query = "";
    fragment = "";
    port = some none;
  });
  ip_network = λ s. some 9;
  ip_address = λ s. if str_eq s "h" then some 5 else none;
  getaddrinfo = λ s. [];
  in_network = λ ip network. false;
  ipv4_mapped = λ ip. none;
  is_global = λ ip. true;
  is_reserved = λ ip. false;
  is_multicast = λ ip. false;
  is_private = λ ip. false;
  is_loopback = λ ip. false;
  lower = λ s. s;
  split_dots = λ s. s ∷ [];
  isdigit = λ s. false;
  show_ip = λ ip. "h";
}

abbrev session : ChainSyncSession
session = record {
  blocks = [];
  done = false;
  expected_height = pos 1;
  expected_prev_hash = null;
  received_bytes = 0;
}

abbrev response : Block
response =
    field "blocks" (arr (cons (obj mined) nil))
      (field "from_height" (int (pos 1)) (field "next_height" (int (pos 2)) end))

session-IsSession : IsSession ⦃env = toy⦄ net (pos 1) null session
session-IsSession = record {
  contiguous = refl;
  at_height = refl;
  few_blocks = omega arith;
  batches = [];
  joined = refl;
  counted = refl;
  few_bytes = omega arith;
}

accept_chain_batch-IsSession_example :
    IsSession ⦃env = toy⦄ net (pos 1) null (accept_chain_batch ⦃env = toy⦄ net session response).1
accept_chain_batch-IsSession_example =
    accept_chain_batch-IsSession ⦃env = toy⦄ net (pos 1) null session response session-IsSession

-- a peer with smaller batches
abbrev net_of_two : NetworkSettings
net_of_two = record net { chain_sync_batch_size = 2 }

abbrev server : BlockChain
server = record empty_chain { chain = mined ∷ [] }

mined-IsNext : IsNext (pos 1) null mined "0g0vn"
unfolding find
mined-IsNext = record {
  header = field "prev_hash" (str "g") (
      field "consensus_type" (str "pow") (
        field "tran_hash" (str "0g0vn")
          (field "nonce" (int (pos 0)) (field "difficulty" (int (pos 1)) end))));
  prev_hash = "g";
  height = refl;
  has_header = refl;
  has_hash = refl;
  has_prev_hash = refl;
  continues = inl refl;
}

answer_get_chain-accepted_example :
    (payload : Block) × (answer_get_chain ⦃env = toy⦄ net_of_two server "n"
        (chain_request ⦃env = toy⦄ net "m" (pos 1))
      ≡ ok payload)
    × ((accept_chain_batch ⦃env = toy⦄ net session payload).0 ≡ true)
    × (((accept_chain_batch ⦃env = toy⦄ net session payload).1).blocks
        ≡ [] ++ honest_blocks net net_of_two server 0)
answer_get_chain-accepted_example =
    answer_get_chain-accepted ⦃env = toy⦄ net net_of_two server session 0 "m" "n" (str "0g0vn") refl
      (omega arith) (omega arith) (omega arith) (omega arith) ("0g0vn", mined-IsNext, refl)

replace_chain-IsReplaced_example :
    (((replace_chain ⦃env = toy⦄ empty_chain (mined ∷ []) none).0 ≡ ok true)
      × IsReplaced ⦃env = toy⦄ empty_chain
          (mined ∷ [])
          none
          (replace_chain ⦃env = toy⦄ empty_chain (mined ∷ []) none).1)
    ⊎ (((replace_chain ⦃env = toy⦄ empty_chain (mined ∷ []) none).0 ≢ ok true)
        × ((replace_chain ⦃env = toy⦄ empty_chain (mined ∷ []) none).1 ≡ empty_chain))
replace_chain-IsReplaced_example =
    replace_chain-IsReplaced ⦃env = toy⦄ work empty_chain (mined ∷ []) none refl

resolve_fork-Outcome_example :
    Outcome ⦃env = toy⦄ work empty_chain [] refl mined []
      (resolve_fork ⦃env = toy⦄ (proof_of_work work) empty_chain [] (mined ∷ []))
resolve_fork-Outcome_example = resolve_fork-Outcome ⦃env = toy⦄ work empty_chain [] refl mined []

abbrev h_url : String
h_url = "wss://h"

h_passes : validate_peer_url ⦃lib = one_host⦄ "wss://h" net Environment.production ≡ some "wss://h"
unfolding validate_peer_url checked_port check_target parse_peer_url is_bad_url resolve_peer_ips
    has_ambiguous_ipv4_notation peer_ips_allowed is_restricted_ip normalize_ip resolve_peer_port
    parse_blocked_networks default_port_for_scheme is_address starts_with url_scheme_matches_tls
    rejects_plain_websocket
h_passes = refl

validate_peer_url-IsAllowedPeer_example :
    (h_url ≡ h_url) × IsAllowedPeer ⦃lib = one_host⦄ net h_url Environment.production
validate_peer_url-IsAllowedPeer_example =
    validate_peer_url-IsAllowedPeer ⦃lib = one_host⦄ net h_url h_url Environment.production h_passes

add_peers-IsBounded_example : IsBounded ⦃lib = one_host⦄ (
    after_messages ⦃lib = one_host⦄
      (new_discovery ⦃lib = one_host⦄ net "wss://me" Environment.production)
      (("wss://h" ∷ "wss://me" ∷ []) ∷ ("wss://h" ∷ []) ∷ []))
add_peers-IsBounded_example =
    add_peers-IsBounded ⦃lib = one_host⦄ net "wss://me" Environment.production
      (("wss://h" ∷ "wss://me" ∷ []) ∷ ("wss://h" ∷ []) ∷ [])

abbrev auth : PeerAuthSettings
auth = record { enabled = true; max_skew_seconds = 300 }

build_hello_payload-verify_hello_example :
    (payload : Fields) × (build_hello_payload ⦃env = toy⦄ "n" "pow" 3 "g"
        (with_private_key ⦃env = toy⦄ 4)
        100900000
        (some "wss://h")
      ≡ ok payload)
    × (verify_hello ⦃env = toy⦄ payload auth 399500000 ≡ ok true)
build_hello_payload-verify_hello_example =
    build_hello_payload-verify_hello ⦃env = toy⦄ toy-CryptoLaws 4 "n" "pow" "g" 3 100900000
      (some "wss://h") auth 399500000 (omega arith) (omega arith)

abbrev requests : List (String × ℕ)
requests = ("p", 1) ∷ ("p", 2) ∷ ("q", 4) ∷ ("p", 5) ∷ ("p", 30) ∷ []

answers-unforgetting_example :
    answers (new_limiter 1 10) requests ≡ unforgetting 1 10 (λ key. []) requests
answers-unforgetting_example =
    answers-unforgetting 1 10 requests
      (omega arith, (omega arith, (omega arith, (omega arith, (omega arith, tt)))))
