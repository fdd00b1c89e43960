-- ===== src/Network/Messages.antt =====
-- useful_blockchain/network/messages.py. A MessageDecodeError is a ValueError.
pub mod RoundTrip
use easyblockchain.Prelude.{
  Bool, true, false, String, Option, none, some, List, [], ◌∷◌, str_eq, if◌then◌else◌,
}
use easyblockchain.Python.{Result, ok, err, value_error, or_raise, ◌>>=◌}
use easyblockchain.Python.Value.{Value, str, obj, Fields}
use easyblockchain.Python.Fields.{find, put, remove}
use easyblockchain.Platform.{Platform}

pub data MessageType : Type 0 where
  hello peers get_chain chain_response new_block ping pong : MessageType

abbrev pub message_value : MessageType → String
message_value MessageType.hello = "HELLO"
message_value MessageType.peers = "PEERS"
message_value MessageType.get_chain = "GET_CHAIN"
message_value MessageType.chain_response = "CHAIN_RESPONSE"
message_value MessageType.new_block = "NEW_BLOCK"
message_value MessageType.ping = "PING"
message_value MessageType.pong = "PONG"

abbrev message_types : List MessageType
message_types =
    MessageType.hello ∷ MessageType.peers ∷ MessageType.get_chain ∷ MessageType.chain_response
    ∷ MessageType.new_block ∷ MessageType.ping ∷ MessageType.pong ∷ []

first_named : String → List MessageType → Option MessageType
first_named name [] = none
first_named name (type ∷ types) =
    let later = first_named name types in
    if str_eq name (message_value type) then some type else later

-- `MessageType(value)`
unfoldable pub message_type : Value → Option MessageType
unfolding first_named
message_type (str name) = first_named name message_types
message_type _ = none

-- a decoded JSON value
unfoldable pub read_message : Value → Result (MessageType × Fields)
read_message (obj f) = do
  value ← or_raise (find "type" f) value_error
  type ← or_raise (message_type value) value_error
  ok (type, remove "type" f)
read_message _ = err value_error

module _ ⦃env : Platform⦄ where
  -- the body that is encoded, `{**payload, "type": msg_type.value}`
  abbrev pub message_body : MessageType → Fields → Fields
  message_body type payload = put "type" (str (message_value type)) payload

  unfoldable pub encode_message : MessageType → Fields → String
  encode_message type payload = env.dumps_sorted (obj (message_body type payload))

  unfoldable pub decode_message : String → Result (MessageType × Fields)
  unfolding read_message
  decode_message raw = do v ← or_raise (env.json_loads raw) value_error; read_message v
