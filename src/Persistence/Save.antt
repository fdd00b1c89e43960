-- ===== src/Persistence/Save.antt =====
-- useful_blockchain/persistence/store.py: `ChainStore.save` as a list of writes, each of which may
-- fail and leave those before it done.
use easyblockchain.Prelude.{
  Bool, true, false, String, Option, none, some, List, [], ◌∷◌, if◌then◌else◌,
}
use easyblockchain.Prelude.Dict.{Dict, insert, erase}
use easyblockchain.Python.{Result, ok, err, chain_store_error, ◌>>=◌}
use easyblockchain.Python.Value.{str, int, obj, arr, Fields, end, field}
use easyblockchain.Platform.{Platform}
use easyblockchain.Persistence.Files.{Disk}
use easyblockchain.Settings.Records.{PersistenceSettings}
use easyblockchain.Persistence.Store.{
  stakes_object, PersistedState, safe_child_path, meta_path, chain_path, genesis_stakes_path,
  private_key_path, p2p_identity_path, compute_checksum, assert_size,
}

module _ ⦃env : Platform⦄ ⦃disk : Disk⦄ where
  -- one thing that `save` does in turn: it raises, passes, or writes a file
  abbrev pub Step : Type 0
  Step = Result (Option (String × disk.Bytes))

  -- `_write_bytes_atomic`: the temporary file is gone whether it replaced the file or not
  unfoldable pub write_bytes_atomic :
      String → disk.Bytes → Dict disk.Bytes → Result (Unit {0}) × Dict disk.Bytes
  write_bytes_atomic path content files =
      let cleared = erase (disk.tmp_path path) files in
      if disk.can_write path
      then (ok tt, insert path content cleared)
      else (err chain_store_error, cleared)

  abbrev pub after :
      Result (Unit {0}) × Dict disk.Bytes
      → (Dict disk.Bytes → Result (Unit {0}) × Dict disk.Bytes)
      → Result (Unit {0}) × Dict disk.Bytes
  after (ok u, files) next = next files
  after (err e, files) next = (err e, files)

  unfoldable pub run : List Step → Dict disk.Bytes → Result (Unit {0}) × Dict disk.Bytes
  unfolding write_bytes_atomic
  run [] files = (ok tt, files)
  run (err e ∷ steps) files = (err e, files)
  run (ok none ∷ steps) files = run steps files
  run (ok (some (path, content)) ∷ steps) files =
      after (write_bytes_atomic path content files) (λ written. run steps written)

  abbrev pub write_at : Result String → disk.Bytes → Step
  write_at located content = do path ← located; ok (some (path, content))

  -- a key that there is
  abbrev pub write_key : Result String → Option disk.Bytes → Step
  write_key located none = ok none
  write_key located (some pem) = write_at located pem

  module _ (settings : PersistenceSettings) (data_dir : String) (state : PersistedState) where
    -- the object that the meta file holds
    unfoldable pub saved_meta : Fields
    saved_meta = field "schema_version" (int settings.schema_version) (
        field "node_id" (str state.node_id) (
          field "genesis_prev_hash" (str state.genesis_prev_hash) (
            field "chain_checksum" (str (compute_checksum (arr state.chain))) (
              field "genesis_stakes_checksum"
                (str (compute_checksum (obj (stakes_object state.genesis_stakes)))) end))))

    unfoldable pub stored_keys : List Step
    stored_keys =
        (safe_child_path data_dir (settings.keys_dir ∷ []) >>= λ keys_dir. ok none)
        ∷ write_key (private_key_path settings data_dir) state.private_key_pem
        ∷ write_key (p2p_identity_path settings data_dir) state.p2p_identity_pem
        ∷ []

    -- the keys, where they are kept on disk
    abbrev pub key_steps : Bool → List Step
    key_steps false = []
    key_steps true = stored_keys

    -- the writes in their order; the path of the meta file is resolved before the second
    unfoldable pub save_steps : List Step
    save_steps =
        write_at (chain_path settings data_dir) (disk.dump_json_bytes (arr state.chain))
        ∷ write_at (meta_path settings data_dir >>= λ path. genesis_stakes_path settings data_dir)
            (disk.dump_json_bytes (obj (stakes_object state.genesis_stakes)))
        ∷ write_at (meta_path settings data_dir) (disk.dump_json_bytes (obj saved_meta))
        ∷ key_steps settings.store_keys_on_disk

    unfoldable pub save : Dict disk.Bytes → Result (Unit {0}) × Dict disk.Bytes
    unfolding save_steps
    save files =
        after
          (
            assert_size settings.max_chain_file_bytes
                (disk.size_of (disk.dump_json_bytes (arr state.chain))),
            files,
          )
          (run save_steps)
