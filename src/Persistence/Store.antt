-- ===== src/Persistence/Store.antt =====
-- useful_blockchain/persistence/store.py: the state that is kept, its paths and checks. The files
-- are a dict from resolved paths to contents; directories, modes and fsync leave no trace in it.
use easyblockchain.Prelude.{
  ℕ, Bool, true, false, not, ◌||◌, String, Option, none, some, List, [], ◌∷◌, if◌then◌else◌,
}
use easyblockchain.Prelude.Int.{ℤ, pos, leb_ℤ, ltb_ℤ}
use easyblockchain.Prelude.Dict.{Dict, lookup}
use easyblockchain.Python.{Result, ok, err, chain_store_error, or_raise, guard, ◌>>=◌, ◌>>◌}
use easyblockchain.Python.Value.{Value, int, obj, arr, Items, Fields, end, field}
use easyblockchain.Platform.{Platform}
use easyblockchain.Persistence.Files.{Disk}
use easyblockchain.Settings.Records.{PersistenceSettings}

abbrev pub is_present {ℓ} : {A : Type ℓ} → Option A → Bool
is_present none = false
is_present (some a) = true

-- a JSON value that must be an object, or an array
abbrev pub need_object : Value → Result Fields
need_object (obj f) = ok f
need_object _ = err chain_store_error

abbrev pub need_array : Value → Result Items
need_array (arr items) = ok items
need_array _ = err chain_store_error

-- a dict of stakes as the JSON object that it is dumped as
abbrev pub stakes_object : Dict ℤ → Fields
stakes_object [] = end
stakes_object ((id, stake) ∷ stakes) = field id (int stake) (stakes_object stakes)

module _ ⦃env : Platform⦄ ⦃disk : Disk⦄ where
  pub record PersistedState : Type 0 where
    pub chain : Items
    pub node_id : String
    pub genesis_prev_hash : String
    pub genesis_stakes : Dict ℤ
    pub private_key_pem : Option disk.Bytes
    pub p2p_identity_pem : Option disk.Bytes

  -- `_safe_child_path(data_dir, *parts)`
  unfoldable pub safe_child_path : String → List String → Result String
  safe_child_path data_dir parts =
      let root = env.resolved_path data_dir in
      let target = disk.joined root parts in
      if disk.is_relative_to target root then ok target else err chain_store_error

  module _ (settings : PersistenceSettings) (data_dir : String) where
    unfoldable pub meta_path : Result String
    meta_path = safe_child_path data_dir (settings.meta_file ∷ [])

    unfoldable pub chain_path : Result String
    chain_path = safe_child_path data_dir (settings.chain_file ∷ [])

    unfoldable pub genesis_stakes_path : Result String
    genesis_stakes_path = safe_child_path data_dir (settings.genesis_stakes_file ∷ [])

    unfoldable pub private_key_path : Result String
    private_key_path = safe_child_path data_dir (settings.keys_dir ∷ settings.private_key_file ∷ [])

    unfoldable pub p2p_identity_path : Result String
    p2p_identity_path =
        safe_child_path data_dir (settings.keys_dir ∷ settings.p2p_identity_file ∷ [])

    unfoldable pub exists : Dict disk.Bytes → Result Bool
    exists files = do path ← meta_path; ok (is_present (lookup path files))

  -- `_compute_checksum`
  unfoldable pub compute_checksum : Value → String
  compute_checksum v = env.sha256 (disk.dumps_canonical v)

  -- `_assert_file_size_within_limit` and `_assert_serialized_chain_size`, of a content
  unfoldable pub assert_size : ℤ → ℕ → Result (Unit {0})
  assert_size max_bytes size =
      guard (leb_ℤ max_bytes (pos 0) || not (ltb_ℤ max_bytes (pos size))) chain_store_error

  unfoldable pub read_bytes : String → Dict disk.Bytes → Result disk.Bytes
  read_bytes path files = do
    content ← or_raise (lookup path files) chain_store_error
    guard (disk.can_read path) chain_store_error
    ok content

  unfoldable pub read_json : String → Dict disk.Bytes → Result Value
  read_json path files = do
    content ← read_bytes path files
    or_raise (disk.json_load content) chain_store_error
