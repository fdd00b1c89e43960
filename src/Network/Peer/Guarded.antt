-- ===== src/Network/Peer/Guarded.antt =====
-- What a connection lets through to the handler, and how many undecodable messages it bears.
use easyblockchain.Prelude.{
  ℕ, suc, ◌+◌, ◌≤◌, ◌≡◌, refl, max, Bool, true, false, not, ◌&&◌, ◌||◌, Bool-cases, inl, inr, List,
  [], ◌∷◌, arith, leb,
}
use easyblockchain.Python.{Result-cases}
use easyblockchain.Platform.{Platform}
use easyblockchain.Network.RateLimit.{SlidingWindowRateLimiter}
use easyblockchain.Network.Messages.{MessageType, decode_message}
use easyblockchain.Network.Peer.{
  PeerConnection, Received, Incoming, Event, delivered, limited, undecodable, refused, Handled,
  Listens, ends, stops, goes, is_hello, receive, received, deliver, dispatch, count_decode_error,
  close, mark_authenticated,
}

-- Where authentication is required, the handler gets nothing but HELLO from a peer without it.
abbrev pub is_guarded : Bool → Event → Bool
is_guarded required (delivered authenticated type) =
    not required || (authenticated || is_hello type)
is_guarded required _ = true

abbrev pub all_guarded : Bool → List Event → Bool
all_guarded required [] = true
all_guarded required (e ∷ events) = is_guarded required e && all_guarded required events

abbrev pub is_undecodable : Event → ℕ
is_undecodable undecodable = 1
is_undecodable _ = 0

abbrev pub undecodables : List Event → ℕ
undecodables [] = 0
undecodables (e ∷ events) = is_undecodable e + undecodables events

abbrev pub limit_of : PeerConnection → ℕ
limit_of p = p.rate_limit_settings.max_decode_errors_before_disconnect

-- what one round keeps
record IsRound (self : PeerConnection) (r : Received) : Type 0 where
  guarded : is_guarded self.require_auth r.event ≡ true
  same_requirement : r.peer.require_auth ≡ self.require_auth
  same_limit : limit_of r.peer ≡ limit_of self
  counted : r.peer.decode_errors ≡ self.decode_errors + is_undecodable r.event
  within : r.goes_on ≡ true → is_undecodable r.event ≡ 1 → suc r.peer.decode_errors ≤ limit_of self

is_undecodable_bound : (e : Event) → is_undecodable e ≤ 1
is_undecodable_bound undecodable = omega arith
is_undecodable_bound limited = omega arith
is_undecodable_bound (delivered a t) = omega arith
is_undecodable_bound (refused t) = omega arith

let_through :
    (required authenticated hello : Bool)
    → (required && (not authenticated && not hello)) ≡ false
    → (not required || (authenticated || hello)) ≡ true
let_through false authenticated hello h = refl
let_through true true hello h = refl
let_through true false true h = refl
let_through true false false h = cc

-- a round that leaves the count of undecodable messages as it is
quiet-IsRound :
    (self : PeerConnection) (e : Event) (goes_on authenticated closed : Bool)
    → is_guarded self.require_auth e ≡ true
    → is_undecodable e ≡ 0
    → IsRound self (record {
      event = e;
      goes_on = goes_on;
      peer = record self { authenticated = authenticated; closed = closed };
    })
quiet-IsRound self e goes_on authenticated closed guarded decoded = record {
  guarded = guarded;
  same_requirement = refl;
  same_limit = refl;
  counted = omega (arith, decoded);
  within = λ on one. absurd (omega (arith, one, decoded));
}

deliver-IsRound :
    (self : PeerConnection) (type : MessageType) (handled : Handled)
    → (self.require_auth && (not self.authenticated && not (is_hello type))) ≡ false
    → IsRound self (deliver self type handled)
unfolding deliver mark_authenticated close
deliver-IsRound self type Handled.returned h = quiet-IsRound self _ _ _ _ (let_through _ _ _ h) refl
deliver-IsRound self type Handled.authenticated h =
    quiet-IsRound self _ _ _ _ (let_through _ _ _ h) refl
deliver-IsRound self type Handled.closed h = quiet-IsRound self _ _ _ _ (let_through _ _ _ h) refl
deliver-IsRound self type Handled.raised h = quiet-IsRound self _ _ _ _ (let_through _ _ _ h) refl

dispatch-IsRound :
    (self : PeerConnection) (type : MessageType) (handled : Handled)
    → IsRound self (dispatch self type handled)
unfolding dispatch close
dispatch-IsRound self type handled =
    elim (Bool-cases (self.require_auth && (not self.authenticated && not (is_hello type)))) [
      | inl e ↦ rw e (quiet-IsRound self _ _ _ _ refl refl)
      | inr e ↦ rw e (deliver-IsRound self type handled e)
    ]

count_decode_error-IsRound : (self : PeerConnection) → IsRound self (count_decode_error self)
unfolding count_decode_error close
count_decode_error-IsRound self = elim (Bool-cases (leb (limit_of self) (suc self.decode_errors))) [
  | inl e ↦ rw e (record {
    guarded = refl;
    same_requirement = refl;
    same_limit = refl;
    counted = omega arith;
    within = λ on one. absurd (ground arith);
  })
  | inr e ↦ rw e (record {
    guarded = refl;
    same_requirement = refl;
    same_limit = refl;
    counted = omega arith;
    within = λ on one. ground (arith, e);
  })
]

module _ ⦃env : Platform⦄ where
  received-IsRound :
      (self : PeerConnection) (allowed : Bool) (m : Incoming)
      → IsRound self (received self allowed m)
  unfolding received close
  received-IsRound self false m = quiet-IsRound self _ _ _ _ refl refl
  received-IsRound self true m = elim (Result-cases (decode_message m.raw)) [
    | inl (message, e) ↦ rw (received, e) (dispatch-IsRound self message.0 m.handled)
    | inr (raised, e) ↦ rw (received, e) (count_decode_error-IsRound self)
  ]

  receive-IsRound :
      (self : PeerConnection) (limiter : SlidingWindowRateLimiter) (m : Incoming)
      → IsRound self (receive self limiter m).0
  unfolding receive
  receive-IsRound self limiter m = received-IsRound self _ m

  -- how a connection ends: closed, with its log guarded and few undecodable messages in it
  pub record IsGuarded (self : PeerConnection) (events : List Event) (last : PeerConnection)
      : Type 0 where
    pub guarded : all_guarded self.require_auth events ≡ true
    pub few :
        self.decode_errors + undecodables events ≤ max (limit_of self) (suc self.decode_errors)
    pub ended : last.closed ≡ true

  -- However the rate limiter is found at each round, a connection that requires authentication
  -- hands nothing but HELLO to the handler before the peer is authenticated, and is closed at the
  -- end. With those counted before, consecutive or not, it bears no more undecodable messages than
  -- its limit, or one more than it had where the limit was reached already (a limit of 0, say).
  pub Listens-IsGuarded :
      (self : PeerConnection) (events : List Event) (last : PeerConnection)
      → Listens self events last
      → IsGuarded self events last
  unfolding close
  Listens-IsGuarded self _ _ (ends _) = record { guarded = refl; few = omega arith; ended = refl }
  Listens-IsGuarded self _ _ (stops _ limiter m stop) =
      let round = receive-IsRound self limiter m in
      let once = is_undecodable_bound (receive self limiter m).0.event in
      record { guarded = rw round.guarded refl; few = omega arith; ended = refl }
  Listens-IsGuarded self _ _ (goes _ limiter m on later) =
      let round = receive-IsRound self limiter m in
      let rest = Listens-IsGuarded _ _ _ later in
      let once = is_undecodable_bound (receive self limiter m).0.event in
      let within = round.within on in
      record {
        guarded = rw round.guarded (rw round.same_requirement at rest.guarded);
        few = ground (arith, rest.few, round.counted, round.same_limit, within, once);
        ended = rest.ended;
      }
