-- ===== src/Persistence/Load.antt =====
-- useful_blockchain/persistence/store.py: `ChainStore.load`.
use easyblockchain.Prelude.{not, ◌||◌, String, Option, none, some, [], if◌then◌else◌}
use easyblockchain.Prelude.Int.{ℤ, pos, eq_ℤ}
use easyblockchain.Prelude.Dict.{Dict, lookup, insert}
use easyblockchain.Python.{
  Result, ok, err, chain_store_error, or_raise, guard, catch_conversion, ◌>>=◌, ◌>>◌,
}
use easyblockchain.Python.Value.{Value, str, int, obj, arr, Items, Fields, end, field, is_none}
use easyblockchain.Python.Fields.{get, get_or, has}
use easyblockchain.Platform.{Platform}
use easyblockchain.Dynamic.{py_eq, int_of}
use easyblockchain.Persistence.Files.{Disk}
use easyblockchain.Settings.Records.{PersistenceSettings}
use easyblockchain.Settings.Values.{text_of}
use easyblockchain.Persistence.Store.{
  need_object, need_array, PersistedState, meta_path, chain_path, genesis_stakes_path,
  private_key_path, p2p_identity_path, compute_checksum, assert_size, read_bytes, read_json,
}

module _ ⦃env : Platform⦄ ⦃disk : Disk⦄ where
  module _ (settings : PersistenceSettings) (data_dir : String) where
    unfoldable pub check_version : Fields → Result (Unit {0})
    check_version meta =
        catch_conversion (int_of (get_or "schema_version" meta (int (pos 0))))
          (λ version. guard (eq_ℤ version settings.schema_version) chain_store_error)
          (err chain_store_error)

    -- a checksum that is recorded must be that of the data
    unfoldable pub check_checksum : Value → Value → Result (Unit {0})
    check_checksum stored content =
        guard (is_none stored || py_eq stored (str (compute_checksum content))) chain_store_error

    unfoldable pub load_chain : Fields → Dict disk.Bytes → Result Items
    unfolding check_checksum
    load_chain meta files = do
      path ← chain_path settings data_dir
      content ← or_raise (lookup path files) chain_store_error
      assert_size settings.max_chain_file_bytes (disk.size_of content)
      v ← read_json path files
      items ← need_array v
      check_checksum (get "chain_checksum" meta) (arr items)
      ok items

    -- the loop over the stakes
    unfoldable pub read_stakes : Fields → Dict ℤ → Result (Dict ℤ)
    read_stakes end stakes = ok stakes
    read_stakes (field key value rest) stakes =
        catch_conversion (int_of value) (λ stake. read_stakes rest (insert key stake stakes))
          (err chain_store_error)

    -- the stakes, by what is found at their path
    unfoldable pub stakes_at :
        Fields → String → Dict disk.Bytes → Option disk.Bytes → Result (Dict ℤ)
    unfolding check_checksum read_stakes
    stakes_at meta path files none = do
      guard (not (has "genesis_stakes_checksum" meta)) chain_store_error
      ok []
    stakes_at meta path files (some content) = do
      v ← read_json path files
      object ← need_object v
      stakes ← read_stakes object []
      check_checksum (get "genesis_stakes_checksum" meta) (obj object)
      ok stakes

    unfoldable pub load_stakes : Fields → Dict disk.Bytes → Result (Dict ℤ)
    unfolding stakes_at
    load_stakes meta files = do
      path ← genesis_stakes_path settings data_dir
      stakes_at meta path files (lookup path files)

    -- a key file that is there
    unfoldable pub key_at :
        String → Dict disk.Bytes → Option disk.Bytes → Result (Option disk.Bytes)
    key_at path files none = ok none
    key_at path files (some content) = do bytes ← read_bytes path files; ok (some bytes)

    unfoldable pub load_key : Result String → Dict disk.Bytes → Result (Option disk.Bytes)
    unfolding key_at
    load_key located files =
        if not settings.store_keys_on_disk
        then ok none
        else located >>= λ path. key_at path files (lookup path files)

    unfoldable pub load_from : String → Dict disk.Bytes → Result (Option PersistedState)
    unfolding check_version load_chain load_stakes load_key
    load_from path files = do
      v ← read_json path files
      meta ← need_object v
      check_version meta
      chain ← load_chain meta files
      stakes ← load_stakes meta files
      key ← load_key (private_key_path settings data_dir) files
      identity ← load_key (p2p_identity_path settings data_dir) files
      ok (
          some (record {
            chain = chain;
            node_id = text_of (get_or "node_id" meta (str ""));
            genesis_prev_hash = text_of (get_or "genesis_prev_hash" meta (str ""));
            genesis_stakes = stakes;
            private_key_pem = key;
            p2p_identity_pem = identity;
          }))

    unfoldable pub load_at :
        String → Dict disk.Bytes → Option disk.Bytes → Result (Option PersistedState)
    unfolding load_from
    load_at path files none = ok none
    load_at path files (some content) = load_from path files

    -- `load`; absent where there is no meta file
    unfoldable pub load : Dict disk.Bytes → Result (Option PersistedState)
    unfolding load_at
    load files = do path ← meta_path settings data_dir; load_at path files (lookup path files)
