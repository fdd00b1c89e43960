-- ===== src/Persistence/Atomic.antt =====
-- What a load finds after a save, complete or not.
use easyblockchain.Prelude.{◌≡◌, ◌∙◌, ◌⊎◌, ap, sym, subst, inl, inr, String, some, arith}
use easyblockchain.Prelude.Dict.{Dict, lookup}
use easyblockchain.Python.{ok, ok_injective, some_injective, >>=-eq-ok, or_raise-eq-ok, guard-eq-ok}
use easyblockchain.Python.Value.{Value, null, str, obj, arr}
use easyblockchain.Python.Fields.{get, find}
use easyblockchain.Platform.{Platform}
use easyblockchain.Settings.Records.{PersistenceSettings}
use easyblockchain.Persistence.Files.{Disk}
use easyblockchain.Persistence.Store.{PersistedState, compute_checksum, read_json, read_bytes}
use easyblockchain.Persistence.Save.{save, saved_meta}
use easyblockchain.Persistence.Load.{load}
use easyblockchain.Persistence.Layout.{Layout, Part}
use easyblockchain.Persistence.Plan.{meta_bytes}
use easyblockchain.Persistence.Verified.{Matches, load-IsVerified}
use easyblockchain.Persistence.Interrupted.{save-IsOldOrNew}

abbrev checksum_in : Value → Value
checksum_in (obj f) = get "chain_checksum" f
checksum_in _ = null

str_injective : {s t : String} → str s ≡ str t → s ≡ t
str_injective h = ground arith

module _ ⦃env : Platform⦄ ⦃disk : Disk⦄ where
  read_bytes-content :
      (path : String) (files : Dict disk.Bytes) (read : disk.Bytes)
      → read_bytes path files ≡ ok read
      → lookup path files ≡ some read
  unfolding read_bytes
  read_bytes-content path files read h =
      let (content, there, h₁) = >>=-eq-ok _ _ h in
      let (readable, h₂) = guard-eq-ok _ _ _ h₁ in
      or_raise-eq-ok _ _ there ∙ ap some (ok_injective h₂)

  -- a file that was dumped from a value is read as that value
  read_json-dumped :
      ((v : Value) → disk.json_load (disk.dump_json_bytes v) ≡ some v)
      → (path : String) (files : Dict disk.Bytes) (v w : Value)
      → lookup path files ≡ some (disk.dump_json_bytes w)
      → read_json path files ≡ ok v
      → v ≡ w
  unfolding read_json
  read_json-dumped faithful path files v w there h =
      let (content, read, h₁) = >>=-eq-ok _ _ h in
      let same = sym (read_bytes-content path files content read) ∙ there in
      let loaded = or_raise-eq-ok _ _ h₁ in
      some_injective (sym loaded ∙ ap disk.json_load (some_injective same) ∙ faithful w)

  module _ (settings : PersistenceSettings) (data_dir : String) (l : Layout settings data_dir)
      (faithful : (v : Value) → disk.json_load (disk.dump_json_bytes v) ≡ some v) where
    recorded :
        (files : Dict disk.Bytes) (state loaded : PersistedState)
        → Matches (checksum_in (obj (saved_meta settings data_dir state))) (arr loaded.chain)
        → compute_checksum (arr loaded.chain) ≡ compute_checksum (arr state.chain)
    unfolding saved_meta find
    recorded files state loaded (inl e) = absurd (ground arith)
    recorded files state loaded (inr e) = sym (str_injective e)

    -- with the meta file of a state, a load succeeds only on a chain with that state's checksum
    load-checksum :
        (files : Dict disk.Bytes) (state loaded : PersistedState)
        → lookup (l.path Part.meta) files ≡ some (meta_bytes settings data_dir l state)
        → load settings data_dir files ≡ ok (some loaded)
        → compute_checksum (arr loaded.chain) ≡ compute_checksum (arr state.chain)
    load-checksum files state loaded there h =
        let v = load-IsVerified settings data_dir files loaded h in
        let at = ok_injective (sym v.meta_located ∙ l.meta_located) in
        let same =
          read_json-dumped faithful (l.path Part.meta) files (obj v.meta)
            (obj (saved_meta settings data_dir state)) there
            (subst (λ p. read_json p files ≡ ok (obj v.meta)) at v.meta_read) in
        recorded files state loaded
          (subst (λ m. Matches (checksum_in m) (arr loaded.chain)) same v.chain_matches)

    -- Where the five files of the store lie at different paths, none of them at the temporary path
    -- of another (`Layout`), and what json.dumps writes json.load reads as the same value: whether a
    -- save over the store of one state succeeds or fails at any of its writes, a load that succeeds
    -- afterwards returns a chain with the checksum of the old state's chain or of the new one's.
    pub save-load_checksum :
        (files : Dict disk.Bytes) (old new loaded : PersistedState)
        → lookup (l.path Part.meta) files ≡ some (meta_bytes settings data_dir l old)
        → load settings data_dir (save settings data_dir new files).1 ≡ ok (some loaded)
        → (compute_checksum (arr loaded.chain) ≡ compute_checksum (arr old.chain))
          ⊎ (compute_checksum (arr loaded.chain) ≡ compute_checksum (arr new.chain))
    save-load_checksum files old new loaded before h =
        elim (save-IsOldOrNew settings data_dir l new files) [
          | inl kept ↦ inl (load-checksum _ old loaded (kept ∙ before) h)
          | inr (chain, stakes, meta) ↦ inr (load-checksum _ new loaded meta h)
        ]
