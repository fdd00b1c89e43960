-- ===== src/Tests/Peers.antt =====
-- Messages, a connection and a server.
use easyblockchain.Prelude.{
  ◌≡◌, refl, true, false, String, some, none, if◌then◌else◌, [], ◌∷◌, str_eq,
}
use easyblockchain.Python.{ok, ◌>>=◌ as bind}
use easyblockchain.Python.Value.{Value, end, field, str, obj, Fields}
use easyblockchain.Python.Fields.{find, put}
use easyblockchain.Prelude.{◌+◌}
use easyblockchain.Prelude.Dict.{lookup}
use easyblockchain.Types.{Environment, RateLimitSettings}
use easyblockchain.Network.Messages.{
  MessageType, encode_message, decode_message, read_message, message_type,
}
use easyblockchain.Network.Messages.RoundTrip.{
  ordered, ordered_option, decode_message-encode_message,
}
use easyblockchain.Network.RateLimit.{new_limiter, allow, admit, prune_stale_keys, drop_old}
use easyblockchain.Network.Peer.{
  PeerConnection, Incoming, Handled, Listens, stops, receive, received, dispatch, close, refused,
}
use easyblockchain.Network.Peer.Guarded.{IsGuarded, Listens-IsGuarded}
use easyblockchain.Network.Server.{
  P2PServer, ServerSettings, new_server, idle, more, opened, open_connection,
}
use easyblockchain.Network.Server.Bounded.{IsBounded, Runs-IsBounded}
use easyblockchain.Network.Reconnect.{Backoff, new_manager, should_retry, report_all, failed}
use easyblockchain.Network.Reconnect.History.{should_retry-history}
use easyblockchain.Platform.{Platform}
use easyblockchain.Tests.Toy.{toy}

-- A block whose header has its keys out of order.
abbrev block_payload : Fields
block_payload =
    field "block"
      (obj
        (field "block_header" (obj (field "slot" (str "1") (field "prev_hash" (str "g") end))) end))
      end

abbrev payload_read : Value
payload_read = obj (
    field "block"
      (obj
        (field "block_header" (obj (field "prev_hash" (str "g") (field "slot" (str "1") end))) end))
      (field "type" (str "NEW_BLOCK") end))

-- a platform on which the one text is that of this message
abbrev reader : Platform
reader = record toy {
  dumps_sorted = λ v. "t";
  json_loads = λ s. if str_eq s "t" then some payload_read else none;
}

decode_message-encode_message_example :
    (received : Fields) × (decode_message ⦃env = reader⦄
        (encode_message ⦃env = reader⦄ MessageType.new_block block_payload)
      ≡ ok (MessageType.new_block, received))
    × (find "type" received ≡ none)
    × ((k : String)
        → str_eq "type" k ≡ false
        → find k received ≡ ordered_option (find k block_payload))
unfolding put ordered encode_message
decode_message-encode_message_example =
    decode_message-encode_message ⦃env = reader⦄ MessageType.new_block block_payload refl

abbrev rates : RateLimitSettings
rates = record {
  max_connections_per_ip_per_minute = 2;
  max_messages_per_peer_per_second = 3;
  max_decode_errors_before_disconnect = 2;
}

abbrev fresh : PeerConnection
fresh = record {
  peer_id = "p";
  max_message_bytes = 100;
  require_auth = true;
  closed = false;
  authenticated = false;
  decode_errors = 0;
  rate_limit_settings = rates;
  rate_limit_key = "ip";
}

abbrev ping_message : Incoming
ping_message = record { raw = "m"; time = 1; handled = Handled.returned }

-- A peer that sends PING before HELLO is cut off.
impatient :
    Listens ⦃env = toy⦄ fresh (refused MessageType.ping ∷ []) (record fresh { closed = true })
unfolding receive received dispatch decode_message read_message message_type find allow admit
    prune_stale_keys drop_old bind close lookup new_limiter
impatient = stops fresh (new_limiter 3 1) ping_message refl

Listens-IsGuarded_example :
    IsGuarded ⦃env = toy⦄ fresh (refused MessageType.ping ∷ []) (record fresh { closed = true })
Listens-IsGuarded_example =
    Listens-IsGuarded ⦃env = toy⦄ fresh (refused MessageType.ping ∷ [])
      (record fresh { closed = true }) impatient

abbrev small_server : ServerSettings
small_server = record {
  max_peers = 1;
  max_message_bytes = 100;
  require_auth = true;
  tls_enabled = true;
  rate_limit = rates;
}

abbrev one_open : P2PServer
one_open = open_connection (new_server small_server Environment.production) "ip" "p" 1

Runs-IsBounded_example : IsBounded (open_connection one_open "ip" "q" 2)
Runs-IsBounded_example =
    Runs-IsBounded small_server Environment.production (open_connection one_open "ip" "q" 2)
      (more (opened _ "ip" "p" 1) (more (opened _ "ip" "q" 2) (idle _)))

abbrev backoff : Backoff
backoff = record { enabled = true; max_attempts = 2; delay = λ n. n + n }

should_retry-history_example :
    should_retry
      (report_all (new_manager backoff) (failed "u" 1 ∷ failed "v" 2 ∷ failed "u" 5 ∷ []))
      "u"
      100
    ≡ false
should_retry-history_example =
    should_retry-history backoff refl "u" (failed "u" 1 ∷ failed "v" 2 ∷ failed "u" 5 ∷ []) 100
