-- ===== src/Network/Peer.antt =====
-- useful_blockchain/network/peer.py: class PeerConnection, one received message at a time. What the
-- handler does with a message that reaches it is given with the message.
pub mod Guarded
use easyblockchain.Prelude.{
  ◌≡◌, ℕ, suc, ◌+◌, Bool, true, false, not, ◌&&◌, String, Option, none, some, List, [], ◌∷◌, leb,
  ltb, if◌then◌else◌,
}
use easyblockchain.Python.{Result, ok, err}
use easyblockchain.Python.Value.{Fields}
use easyblockchain.Platform.{Platform}
use easyblockchain.Types.{RateLimitSettings}
use easyblockchain.Network.RateLimit.{SlidingWindowRateLimiter, allow}
use easyblockchain.Network.Messages.{MessageType, encode_message, decode_message}

pub record PeerConnection : Type 0 where
  pub peer_id : String
  pub max_message_bytes : ℕ
  pub require_auth : Bool
  pub closed : Bool
  pub authenticated : Bool
  pub decode_errors : ℕ
  pub rate_limit_settings : RateLimitSettings
  pub rate_limit_key : String

-- `PeerConnection(...)`; the default of the key is the peer's id
unfoldable pub new_connection :
    String → ℕ → Bool → RateLimitSettings → Option String → PeerConnection
new_connection peer_id max_message_bytes require_auth settings key = record {
  peer_id = peer_id;
  max_message_bytes = max_message_bytes;
  require_auth = require_auth;
  closed = false;
  authenticated = not require_auth;
  decode_errors = 0;
  rate_limit_settings = settings;
  rate_limit_key = elim key [ none ↦ peer_id | some k ↦ k ];
}

-- What `on_message` does: it returns, it returns after it has authenticated the peer or has closed
-- the connection, or it raises.
pub data Handled : Type 0 where
  returned authenticated closed raised : Handled

pub record Incoming : Type 0 where
  pub raw : String
  pub time : ℕ
  pub handled : Handled

-- What becomes of a message: the handler gets it (from a peer that is authenticated or not), or the
-- rate limiter, the decoder or the check of the authentication stops it.
pub data Event : Type 0 where
  delivered : Bool → MessageType → Event
  limited undecodable : Event
  refused : MessageType → Event

pub record Received : Type 0 where
  pub event : Event
  pub goes_on : Bool
  pub peer : PeerConnection

abbrev pub is_hello : MessageType → Bool
is_hello MessageType.hello = true
is_hello _ = false

unfoldable pub mark_authenticated : PeerConnection → PeerConnection
mark_authenticated self = record self { authenticated = true }

-- `close`
unfoldable pub close : PeerConnection → PeerConnection
close self = record self { closed = true }

-- The call of the handler. The loop does not look at `closed`: after a handler that has closed the
-- connection it goes on for as long as the socket gives messages.
unfoldable pub deliver : PeerConnection → MessageType → Handled → Received
unfolding mark_authenticated close
deliver self type Handled.returned = record {
  event = delivered self.authenticated type;
  goes_on = true;
  peer = self;
}
deliver self type Handled.authenticated = record {
  event = delivered self.authenticated type;
  goes_on = true;
  peer = mark_authenticated self;
}
deliver self type Handled.closed = record {
  event = delivered self.authenticated type;
  goes_on = true;
  peer = close self;
}
deliver self type Handled.raised = record {
  event = delivered self.authenticated type;
  goes_on = false;
  peer = close self;
}

-- a message that has been decoded
unfoldable pub dispatch : PeerConnection → MessageType → Handled → Received
unfolding deliver close
dispatch self type handled =
    if self.require_auth && (not self.authenticated && not (is_hello type))
    then record { event = refused type; goes_on = false; peer = close self }
    else deliver self type handled

-- a message that cannot be decoded
unfoldable pub count_decode_error : PeerConnection → Received
unfolding close
count_decode_error self =
    let counted = record self { decode_errors = suc self.decode_errors } in
    if leb self.rate_limit_settings.max_decode_errors_before_disconnect (suc self.decode_errors)
    then record { event = undecodable; goes_on = false; peer = close counted }
    else record { event = undecodable; goes_on = true; peer = counted }

module _ ⦃env : Platform⦄ where
  -- `send`: the text that is sent, if the connection is open and the text is not too long
  unfoldable pub send : PeerConnection → MessageType → Fields → Option String
  send self type payload =
      if self.closed
      then none
      else (if ltb self.max_message_bytes (env.utf8_length (encode_message type payload))
          then none
          else some (encode_message type payload))

  -- a message that the limiter has let pass, or has not
  unfoldable pub received : PeerConnection → Bool → Incoming → Received
  unfolding count_decode_error dispatch close
  received self false m = record { event = limited; goes_on = false; peer = close self }
  received self true m = elim (decode_message m.raw) [
    | err e ↦ count_decode_error self
    | ok message ↦ dispatch self message.0 m.handled
  ]

  -- One round of the loop of `listen`, with the limiter as it is found.
  unfoldable pub receive :
      PeerConnection → SlidingWindowRateLimiter → Incoming → Received × SlidingWindowRateLimiter
  unfolding received
  receive self limiter m =
      let asked = allow limiter self.rate_limit_key m.time in (received self asked.0 m, asked.1)

  -- `listen` as a run of rounds. Other connections may use the limiter between two rounds; the
  -- loop ends when the socket does, or with a round that leaves it.
  pub data Listens : PeerConnection → List Event → PeerConnection → Type 0 where
    ends : (self : PeerConnection) → Listens self [] (close self)
    stops :
        (self : PeerConnection) (limiter : SlidingWindowRateLimiter) (m : Incoming)
        → (receive self limiter m).0.goes_on ≡ false
        → Listens self
            ((receive self limiter m).0.event ∷ [])
            (close (receive self limiter m).0.peer)
    goes :
        {events : List Event} {last : PeerConnection} (self : PeerConnection)
        (limiter : SlidingWindowRateLimiter) (m : Incoming)
        → (receive self limiter m).0.goes_on ≡ true
        → Listens (receive self limiter m).0.peer events last
        → Listens self ((receive self limiter m).0.event ∷ events) last
