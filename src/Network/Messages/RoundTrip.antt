-- ===== src/Network/Messages/RoundTrip.antt =====
-- An encoded message is decoded as it was.
use easyblockchain.Prelude.{
  ◌≡◌, ◌∙◌, refl, ap, false, ◌||◌, String, Option, none, some, str_eq, str_eq_iff, arith,
  Bool-cases, inl, inr, if◌then◌else◌,
}
use easyblockchain.Python.{ok, >>=-ok, or_raise, value_error}
use easyblockchain.Python.Value.{Value, str, obj, arr, Fields, field, end, Items, cons, nil}
use easyblockchain.Python.Fields.{find, remove, find-put, find-remove}
use easyblockchain.Platform.{Platform}
use Prim.Native.String.{compare}
use text.Mathlib.Text.{is_lt}
use easyblockchain.Network.Messages.{
  MessageType, message_value, message_type, message_body, encode_message, decode_message,
  read_message,
}

message_type-message_value :
    (type : MessageType) → message_type (str (message_value type)) ≡ some type
unfolding message_type
message_type-message_value MessageType.hello = refl
message_type-message_value MessageType.peers = refl
message_type-message_value MessageType.get_chain = refl
message_type-message_value MessageType.chain_response = refl
message_type-message_value MessageType.new_block = refl
message_type-message_value MessageType.ping = refl
message_type-message_value MessageType.pong = refl

-- What json.dumps with sort_keys makes of a value: the keys of each dict in order, at every depth.
put_ordered : String → Value → Fields → Fields
put_ordered k v end = field k v end
put_ordered k v (field j w f) =
    let later = put_ordered k v f in
    if str_eq k j || is_lt (compare k j) then field k v (field j w f) else field j w later

unfoldable mutual
  unfolding put_ordered

  pub ordered : Value → Value
  ordered (obj f) = obj (ordered_fields f)
  ordered (arr xs) = arr (ordered_list xs)
  ordered v = v

  pub ordered_fields : Fields → Fields
  ordered_fields end = end
  ordered_fields (field k v f) = put_ordered k (ordered v) (ordered_fields f)

  pub ordered_list : Items → Items
  ordered_list nil = nil
  ordered_list (cons v xs) = cons (ordered v) (ordered_list xs)

-- what is found at a key, with its own keys in order
abbrev pub ordered_option : Option Value → Option Value
ordered_option none = none
ordered_option (some v) = some (ordered v)

find-put_ordered :
    (k j : String) (v : Value) (f : Fields)
    → find j (put_ordered k v f) ≡ (if str_eq k j then some v else find j f)
unfolding put_ordered find
find-put_ordered k j v end = refl
find-put_ordered k j v (field i w f) =
    ground (arith, str_eq_iff k i, str_eq_iff i j, str_eq_iff k j, find-put_ordered k j v f)

find-ordered_fields :
    (k : String) (f : Fields) → find k (ordered_fields f) ≡ ordered_option (find k f)
unfolding ordered find
find-ordered_fields k end = refl
find-ordered_fields k (field j v f) =
    find-put_ordered j k (ordered v) (ordered_fields f)
    ∙ elim (Bool-cases (str_eq j k)) [ inl e ↦ rw e refl | inr e ↦ rw e (find-ordered_fields k f) ]

module _ ⦃env : Platform⦄ (type : MessageType) (payload : Fields)
    (loads : env.json_loads (encode_message type payload)
      ≡ some (ordered (obj (message_body type payload)))) where
  sent : Fields
  sent = ordered_fields (message_body type payload)

  find-sent : (k : String) → find k sent ≡ ordered_option (find k (message_body type payload))
  unfolding sent
  find-sent k = find-ordered_fields k (message_body type payload)

  loads_sent : env.json_loads (encode_message type payload) ≡ some (obj sent)
  unfolding sent ordered
  loads_sent = loads

  type_sent : find "type" sent ≡ some (str (message_value type))
  unfolding ordered
  type_sent = find-sent "type" ∙ ap ordered_option (find-put "type" "type" _ payload)

  -- the payload that arrives has what the payload had, but for the key `type`
  payload_kept :
      (k : String)
      → str_eq "type" k ≡ false
      → find k (remove "type" sent) ≡ ordered_option (find k payload)
  payload_kept k e =
      find-remove "type" k sent
      ∙ rw e (find-sent k ∙ ap ordered_option (find-put "type" k _ payload ∙ rw e refl))

  -- Where json.loads reads what json.dumps has written with sort_keys as the same value, but for the
  -- order of the keys of its dicts: a message is decoded to its own type, and to a payload that at
  -- every key but `type` has the value that was sent, with the keys of its dicts in order, and at
  -- `type` has none.
  pub decode_message-encode_message :
      (received : Fields) × (decode_message (encode_message type payload) ≡ ok (type, received))
      × (find "type" received ≡ none)
      × ((k : String) → str_eq "type" k ≡ false → find k received ≡ ordered_option (find k payload))
  unfolding decode_message read_message
  decode_message-encode_message = (
    remove "type" sent,
    >>=-ok _ (ap (λ v. or_raise v value_error) loads_sent) (
        >>=-ok _ (ap (λ v. or_raise v value_error) type_sent)
          (>>=-ok _ (ap (λ t. or_raise t value_error) (message_type-message_value type)) refl)),
    find-remove "type" "type" sent,
    payload_kept,
  )
