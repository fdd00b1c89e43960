-- ===== src/Network/PeerAuth.antt =====
-- useful_blockchain/network/peer_auth.py: the signed HELLO. The clock counts
-- microseconds, and a timestamp whole seconds.
pub mod Accepted
use easyblockchain.Prelude.{
  ℕ, ◌+◌, ◌*◌, ◌/◌, Bool, true, false, not, ◌||◌, ◌&&◌, String, Option, none, some, ltb, str_eq,
  if◌then◌else◌,
}
use easyblockchain.Prelude.Int.{ℤ, pos, ◌+ℤ◌, ◌*ℤ◌, ltb_ℤ}
use easyblockchain.Python.{Result, ok, err, value_error, or_raise, catch_conversion, ◌>>=◌}
use easyblockchain.Python.Value.{Value, int, str, obj, Fields, end, field}
use easyblockchain.Python.Fields.{item, has, get, put}
use easyblockchain.Platform.{Platform}
use easyblockchain.Dynamic.{int_of}
use easyblockchain.Types.{PeerAuthSettings}
use easyblockchain.Signature.{
  SignatureManager, no_keys, sign_data, export_public_key, import_public_key, verify_signature,
  or_false,
}

-- `advertised_url` goes into a payload where it is given and not empty
abbrev pub add_url : Option String → Fields → Fields
add_url none base = base
add_url (some url) base = if str_eq url "" then base else put "advertised_url" (str url) base

-- the microseconds of a second
abbrev pub per_second : ℕ
per_second = 1000000

-- `abs(current - timestamp) > max_skew`
abbrev pub is_skewed : ℕ → ℤ → ℕ → Bool
is_skewed current timestamp max_skew =
    let at = timestamp *ℤ pos per_second in
    let skew = max_skew * per_second in
    ltb_ℤ (pos (current + skew)) at || ltb_ℤ (at +ℤ pos skew) (pos current)

module _ ⦃env : Platform⦄ where
  -- `str(v)`
  abbrev pub text_of : Value → String
  text_of (str s) = s
  text_of v = env.to_text v

  with_url : Fields → Fields → Fields
  with_url payload signing =
      if has "advertised_url" payload
      then put "advertised_url" (str (text_of (get "advertised_url" payload))) signing
      else signing

  unfoldable pub hello_signing_payload : Fields → Result Fields
  unfolding with_url
  hello_signing_payload payload = do
    node_id ← item "node_id" payload
    consensus_type ← item "consensus_type" payload
    genesis_hash ← item "genesis_hash" payload
    chain_height ← item "chain_height" payload
    timestamp_value ← item "timestamp" payload
    timestamp ← int_of timestamp_value
    ok (
        with_url payload (
          field "node_id" node_id (
            field "consensus_type" consensus_type (
              field "genesis_hash" genesis_hash
                (field "chain_height" chain_height (field "timestamp" (int timestamp) end))))))

  -- `base`, with its timestamp
  base_payload : String → String → ℕ → String → ℕ → Option String → Fields
  base_payload node_id consensus_type chain_height genesis_hash_value timestamp advertised_url =
      add_url advertised_url (
        field "node_id" (str node_id) (
          field "consensus_type" (str consensus_type) (
            field "chain_height" (int (pos chain_height)) (
              field "genesis_hash" (str genesis_hash_value)
                (field "timestamp" (int (pos timestamp)) end)))))

  unfoldable pub build_hello_payload :
      String → String → ℕ → String → SignatureManager → ℕ → Option String → Result Fields
  unfolding base_payload
  build_hello_payload node_id consensus_type chain_height genesis_hash_value signature_manager now
        advertised_url =
      do
        let timestamp = now / per_second
        let base =
            base_payload node_id consensus_type chain_height genesis_hash_value timestamp
              advertised_url
        signing_data ← hello_signing_payload base
        signature ← sign_data signature_manager (obj signing_data)
        public_key ← export_public_key signature_manager
        ok (put "signature" (str (env.to_hex signature)) (put "public_key" (str public_key) base))

  is_height : Value → Bool
  is_height (int (pos n)) = true
  is_height _ = false

  all_required : Fields → Bool
  all_required payload =
      has "node_id" payload
      && has "consensus_type" payload
      && has "chain_height" payload
      && has "genesis_hash" payload
      && has "timestamp" payload
      && has "public_key" payload
      && has "signature" payload

  -- the two `try` blocks that follow the check of the time
  check_signed : Fields → Result Bool
  check_signed payload = or_false (do
    signature ← or_raise (env.from_hex (text_of (get "signature" payload))) value_error
    public_key ← import_public_key (text_of (get "public_key" payload))
    signing_data ← hello_signing_payload payload
    verify_signature no_keys (obj signing_data) signature (some public_key))

  unfoldable pub verify_hello : Fields → PeerAuthSettings → ℕ → Result Bool
  unfolding is_height all_required check_signed
  verify_hello payload settings current =
      if not (all_required payload)
      then ok false
      else if not (is_height (get "chain_height" payload))
      then ok false
      else catch_conversion (int_of (get "timestamp" payload))
          (λ timestamp.
            if is_skewed current timestamp settings.max_skew_seconds
            then ok false
            else check_signed payload)
          (ok false)
