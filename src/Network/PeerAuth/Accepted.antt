-- ===== src/Network/PeerAuth/Accepted.antt =====
-- The HELLO that a node builds is accepted.
use easyblockchain.Prelude.{
  ℕ, ◌+◌, ◌*◌, ◌/◌, ◌≤◌, ◌≡◌, refl, ap, true, false, String, Option, none, some, arith, str_eq, inl,
  inr, Bool-cases,
}
use easyblockchain.Prelude.Int.{pos}
use easyblockchain.Python.{ok, ◌>>=◌}
use easyblockchain.Python.Value.{Value, int, str, obj, Fields, end, field}
use easyblockchain.Python.Fields.{find, put, get}
use easyblockchain.Platform.{Platform}
use easyblockchain.Types.{PeerAuthSettings}
use easyblockchain.Signature.{
  with_private_key, no_keys, sign_data, export_public_key, or_false, data_string,
}
use easyblockchain.Signature.Laws.{CryptoLaws, import-export, verify-signed}
use easyblockchain.Network.PeerAuth.{
  hello_signing_payload, build_hello_payload, base_payload, verify_hello, check_signed, with_url,
  is_height, all_required, is_skewed, per_second,
}

not_skewed :
    (current timestamp max_skew : ℕ)
    → timestamp * per_second ≤ current + max_skew * per_second
    → current ≤ timestamp * per_second + max_skew * per_second
    → is_skewed current (pos timestamp) max_skew ≡ false
not_skewed current timestamp max_skew behind ahead = ground arith

module _ ⦃env : Platform⦄ (laws : CryptoLaws env) (key : ℕ) where
  signed_text : Fields → Value
  signed_text signing = str (env.to_hex (env.rsa_sign key (data_string (obj signing))))

  own_key : Value
  own_key = str (env.export_public (env.public_key_of key))

  -- the payload with the two fields that carry the signature
  attached : Fields → Fields → Fields
  attached base signing = put "signature" (signed_text signing) (put "public_key" own_key base)

  check_signed-attached :
      (base signing : Fields)
      → get "signature" (attached base signing) ≡ signed_text signing
      → get "public_key" (attached base signing) ≡ own_key
      → hello_signing_payload (attached base signing) ≡ ok signing
      → check_signed (attached base signing) ≡ ok true
  unfolding check_signed ◌>>=◌ signed_text own_key
  check_signed-attached base signing sig pk text =
      rw
        (
          check_signed,
          sig,
          pk,
          laws.from_hex-to_hex (env.rsa_sign key (data_string (obj signing))),
          import-export laws key,
          text,
        )
        (ap or_false (verify-signed laws no_keys key (obj signing)))

  -- what the receiver reads of a payload
  record IsRead (chain_height now : ℕ) (base signing : Fields) : Type 0 where
    signs : hello_signing_payload base ≡ ok signing
    same : hello_signing_payload (attached base signing) ≡ ok signing
    signature : get "signature" (attached base signing) ≡ signed_text signing
    public_key : get "public_key" (attached base signing) ≡ own_key
    complete : all_required (attached base signing) ≡ true
    height : get "chain_height" (attached base signing) ≡ int (pos chain_height)
    time : get "timestamp" (attached base signing) ≡ int (pos now)

  module _ (node_id consensus_type genesis_hash_value : String) (chain_height : ℕ) where
    module _ (now : ℕ) where
      -- the payload to sign, with the advertised URL or without
      plain_payload : Fields
      plain_payload = base_payload node_id consensus_type chain_height genesis_hash_value now none

      url_payload : String → Fields
      url_payload url = put "advertised_url" (str url) plain_payload

      plain_signing : Fields
      plain_signing = field "node_id" (str node_id) (
          field "consensus_type" (str consensus_type) (
            field "genesis_hash" (str genesis_hash_value) (
              field "chain_height" (int (pos chain_height))
                (field "timestamp" (int (pos now)) end))))

      url_signing : String → Fields
      url_signing url = put "advertised_url" (str url) plain_signing

      plain-IsRead : IsRead chain_height now plain_payload plain_signing
      unfolding hello_signing_payload base_payload with_url attached find put ◌>>=◌ all_required
          plain_payload plain_signing
      plain-IsRead = record {
        signs = refl;
        same = refl;
        signature = refl;
        public_key = refl;
        complete = refl;
        height = refl;
        time = refl;
      }

      url-IsRead : (url : String) → IsRead chain_height now (url_payload url) (url_signing url)
      unfolding hello_signing_payload base_payload with_url attached find put ◌>>=◌ all_required
          plain_payload plain_signing url_payload url_signing
      url-IsRead url = record {
        signs = refl;
        same = refl;
        signature = refl;
        public_key = refl;
        complete = refl;
        height = refl;
        time = refl;
      }

      base_payload-IsRead :
          (url : Option String)
          → (signing : Fields) × IsRead chain_height now
              (base_payload node_id consensus_type chain_height genesis_hash_value now url)
              signing
      unfolding base_payload plain_payload url_payload
      base_payload-IsRead none = (plain_signing, plain-IsRead)
      base_payload-IsRead (some url) = elim (Bool-cases (str_eq url "")) [
        | inl empty ↦ (plain_signing, rw empty plain-IsRead)
        | inr given ↦ (url_signing url, rw given (url-IsRead url))
      ]

    module _ (now : ℕ) where
      -- Where RSA, key export and hex coding keep their documented laws (`CryptoLaws`): the HELLO that
      -- a node with a key builds is accepted by every node whose clock is at most `max_skew_seconds`
      -- behind or ahead of the last whole second that the builder's clock had reached.
      pub build_hello_payload-verify_hello :
          (url : Option String) (settings : PeerAuthSettings) (current : ℕ)
          → now / per_second * per_second ≤ current + settings.max_skew_seconds * per_second
          → current ≤ now / per_second * per_second + settings.max_skew_seconds * per_second
          → (payload : Fields) × (build_hello_payload node_id consensus_type chain_height
                genesis_hash_value
                (with_private_key key)
                now
                url
              ≡ ok payload)
            × (verify_hello payload settings current ≡ ok true)
      unfolding build_hello_payload verify_hello with_private_key sign_data export_public_key ◌>>=◌
          is_height attached signed_text own_key
      build_hello_payload-verify_hello url settings current behind ahead =
          let timestamp : ℕ = now / per_second in
          let (signing, r) = base_payload-IsRead timestamp url in
          let base : Fields =
            base_payload node_id consensus_type chain_height genesis_hash_value timestamp url in
          (
            attached base signing,
            rw r.signs refl,
            rw
                (
                  verify_hello,
                  r.complete,
                  r.height,
                  r.time,
                  not_skewed current timestamp settings.max_skew_seconds behind ahead,
                )
                (check_signed-attached base signing r.signature r.public_key r.same),
          )
