-- ===== src/Signature/Laws.antt =====
-- A signed block verifies, and only the payload without the two signature fields is signed.
use easyblockchain.Prelude.{ℕ, ◌/◌, ◌≡◌, refl, true, false, String, some, arith, str_eq, ◌∙◌, ap}
use easyblockchain.Python.{ok, ◌>>=◌}
use easyblockchain.Python.Value.{Value, str, obj}
use easyblockchain.Python.Fields.{
  find, put, remove, find-put, find-remove, remove-put_new, remove-put_ne,
}
use easyblockchain.Platform.{Platform}
use easyblockchain.Types.{Block}
use easyblockchain.Signature.{
  SignatureManager, unsigned, with_private_key, data_string, sign_block, import_public_key,
  verify_signature, verify_fields, verify_block_signature, or_false,
}

-- What the documentation of `cryptography` and of `bytes.hex` promises, for RSA keys whose size is a
-- number of whole bytes.
pub record CryptoLaws (env : Platform) : Type 0 where
  pub from_hex-to_hex : (b : ℕ) → env.from_hex (env.to_hex b) ≡ some b
  pub load-export : (k : ℕ) → env.load_public_key (env.export_public k) ≡ ok k
  pub public_is_rsa : (k : ℕ) → env.is_rsa (env.public_key_of k) ≡ true
  pub signature_bytes :
      (k : ℕ) (s : String)
      → env.byte_count (env.rsa_sign k s) ≡ env.key_size (env.public_key_of k) / 8
  pub verify-sign :
      (k : ℕ) (s : String) → env.rsa_verify (env.public_key_of k) (env.rsa_sign k s) s ≡ true

module _ (sig pk : Value) (block : Block) where
  abbrev attach : Block
  attach = put "public_key" pk (put "signature" sig (unsigned block))

  find-signature : find "signature" attach ≡ some sig
  find-signature = simp find-put

  find-public_key : find "public_key" attach ≡ some pk
  find-public_key = simp find-put

  unsigned-attach : unsigned attach ≡ unsigned block
  unsigned-attach =
      ap (remove "public_key") (
        remove-put_ne "signature" "public_key" pk (put "signature" sig (unsigned block)) refl
        ∙ ap (put "public_key" pk)
            (remove-put_new "signature" sig (unsigned block) (simp find-remove)))
      ∙ remove-put_new "public_key" pk (unsigned block) (simp find-remove)

module _ ⦃env : Platform⦄ (laws : CryptoLaws env) where
  pub import-export :
      (key : ℕ)
      → import_public_key (env.export_public (env.public_key_of key)) ≡ ok (env.public_key_of key)
  unfolding import_public_key ◌>>=◌
  import-export key =
      ground (arith, laws.load-export (env.public_key_of key), laws.public_is_rsa key)

  pub verify-signed :
      (m : SignatureManager) (key : ℕ) (v : Value)
      → verify_signature m v (env.rsa_sign key (data_string v)) (some (env.public_key_of key))
        ≡ ok true
  unfolding verify_signature
  verify-signed m key v = ground (
    arith,
    laws.public_is_rsa key,
    laws.signature_bytes key (data_string v),
    laws.verify-sign key (data_string v),
  )

  verify_fields-signed :
      (m : SignatureManager) (key : ℕ) (block payload : Block)
      → unsigned block ≡ payload
      → verify_fields m block
          (str (env.to_hex (env.rsa_sign key (data_string (obj payload)))))
          (str (env.export_public (env.public_key_of key)))
        ≡ ok true
  unfolding verify_fields ◌>>=◌
  verify_fields-signed m key block payload e = ground (
    arith,
    e,
    laws.from_hex-to_hex (env.rsa_sign key (data_string (obj payload))),
    laws.load-export (env.public_key_of key),
    laws.public_is_rsa key,
    laws.signature_bytes key (data_string (obj payload)),
    laws.verify-sign key (data_string (obj payload)),
  )

  verify_found :
      (m : SignatureManager) (block : Block) (sig pk : Value)
      → find "signature" block ≡ some sig
      → find "public_key" block ≡ some pk
      → verify_block_signature m block ≡ or_false (verify_fields m block sig pk)
  unfolding verify_block_signature
  verify_found m block sig pk e f = ground arith

  -- Where RSA, key export and hex coding keep their documented laws (`CryptoLaws`): with a private
  -- key the signing of any block succeeds, the signed block is accepted by every verifier, and
  -- every field but the two of the signature is unchanged.
  pub sign_block-verifies :
      (verifier : SignatureManager) (key : ℕ) (block : Block)
      → (signed : Block) × (sign_block (with_private_key key) block ≡ ok signed)
        × (verify_block_signature verifier signed ≡ ok true)
        × ((k : String)
            → str_eq "signature" k ≡ false
            → str_eq "public_key" k ≡ false
            → find k signed ≡ find k block)
  unfolding sign_block with_private_key ◌>>=◌
  sign_block-verifies verifier key block = (
    attach sig pk block,
    refl,
    verify_found verifier (attach sig pk block) sig pk (find-signature sig pk block)
          (find-public_key sig pk block)
        ∙ ap or_false (
            verify_fields-signed verifier key (attach sig pk block) (unsigned block)
              (unsigned-attach sig pk block)),
    λ k a b. simp (find-put, find-remove, a, b),
  )
    where
      sig : Value
      sig = str (env.to_hex (env.rsa_sign key (data_string (obj (unsigned block)))))

      pk : Value
      pk = str (env.export_public (env.public_key_of key))
