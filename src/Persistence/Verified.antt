-- ===== src/Persistence/Verified.antt =====
-- What a load that succeeds has checked.
use easyblockchain.Prelude.{
  ◌≡◌, ◌⊎◌, ◌∙◌, inl, inr, refl, ap, subst, String, Option, none, some, arith,
}
use easyblockchain.Prelude.Int.{pos, eq_ℤ, eq_ℤ_iff}
use easyblockchain.Prelude.Dict.{Dict, lookup}
use easyblockchain.Python.{
  ok, chain_store_error, >>=-eq-ok, guard, guard_last-eq-ok, catch_conversion-eq-ok, ok_injective,
  some_injective,
}
use easyblockchain.Python.Value.{Value, null, str, int, obj, arr, Fields, Items}
use easyblockchain.Python.Fields.{get, get_or}
use easyblockchain.Platform.{Platform}
use easyblockchain.Dynamic.{int_of}
use easyblockchain.Dynamic.Laws.{py_eq-str}
use easyblockchain.Settings.Records.{PersistenceSettings}
use easyblockchain.Persistence.Files.{Disk}
use easyblockchain.Persistence.Store.{
  PersistedState, need_array, need_object, read_json, compute_checksum, meta_path, chain_path,
}
use easyblockchain.Persistence.Load.{
  load, load_at, load_from, load_chain, check_checksum, check_version,
}

module _ ⦃env : Platform⦄ ⦃disk : Disk⦄ where
  -- the recorded checksum of the data, or none recorded
  abbrev pub Matches : Value → Value → Type 0
  Matches stored content = (stored ≡ null) ⊎ (stored ≡ str (compute_checksum content))

  module _ (settings : PersistenceSettings) (data_dir : String) where
    check_checksum-Matches :
        (stored content : Value)
        → check_checksum settings data_dir stored content ≡ ok tt
        → Matches stored content
    unfolding check_checksum guard
    check_checksum-Matches null content h = inl refl
    check_checksum-Matches v content h = inr (py_eq-str v _ (guard_last-eq-ok _ _ h))

    need_array-eq-ok : (v : Value) (items : Items) → need_array v ≡ ok items → v ≡ arr items
    need_array-eq-ok (arr xs) items h = ap arr (ok_injective h)
    need_array-eq-ok _ items h = absurd (cc)

    need_object-eq-ok : (v : Value) (fields : Fields) → need_object v ≡ ok fields → v ≡ obj fields
    need_object-eq-ok (obj f) fields h = ap obj (ok_injective h)
    need_object-eq-ok _ fields h = absurd (cc)

    check_version-eq-ok :
        (meta : Fields)
        → check_version settings data_dir meta ≡ ok tt
        → int_of (get_or "schema_version" meta (int (pos 0))) ≡ ok settings.schema_version
    unfolding check_version
    check_version-eq-ok meta h =
        let (version, e, same) =
          catch_conversion-eq-ok (int_of (get_or "schema_version" meta (int (pos 0))))
            (λ v. guard (eq_ℤ v settings.schema_version) chain_store_error) chain_store_error h in
        e ∙ ap ok ((eq_ℤ_iff version settings.schema_version).0 (guard_last-eq-ok _ _ same))

    -- The chain is what its file holds, and matches the checksum of the meta file.
    pub record IsVerified (files : Dict disk.Bytes) (state : PersistedState) : Type 0 where
      pub path : String
      pub meta : Fields
      pub meta_located : meta_path settings data_dir ≡ ok path
      pub meta_read : read_json path files ≡ ok (obj meta)
      pub version : int_of (get_or "schema_version" meta (int (pos 0))) ≡ ok settings.schema_version
      pub chain_file : String
      pub chain_located : chain_path settings data_dir ≡ ok chain_file
      pub chain_read : read_json chain_file files ≡ ok (arr state.chain)
      pub chain_matches : Matches (get "chain_checksum" meta) (arr state.chain)

    -- `load_chain` returns what the chain file holds.
    record ChainFound (meta : Fields) (files : Dict disk.Bytes) (chain : Items) : Type 0 where
      chain_file : String
      chain_located : chain_path settings data_dir ≡ ok chain_file
      chain_read : read_json chain_file files ≡ ok (arr chain)
      chain_matches : Matches (get "chain_checksum" meta) (arr chain)

    load_chain-ChainFound :
        (meta : Fields) (files : Dict disk.Bytes) (chain : Items)
        → load_chain settings data_dir meta files ≡ ok chain
        → ChainFound meta files chain
    unfolding load_chain
    load_chain-ChainFound meta files chain h =
        let (path, located, h₁) = >>=-eq-ok _ _ h in
        let (content, there, h₂) = >>=-eq-ok _ _ h₁ in
        let (small, size, h₃) = >>=-eq-ok _ _ h₂ in
        let (v, read, h₄) = >>=-eq-ok _ _ h₃ in
        let (items, array, h₅) = >>=-eq-ok _ _ h₄ in
        let (checked, matches, h₆) = >>=-eq-ok _ _ h₅ in
        subst (ChainFound meta files) (ok_injective h₆) (record {
          chain_file = path;
          chain_located = located;
          chain_read = read ∙ ap ok (need_array-eq-ok v items array);
          chain_matches = check_checksum-Matches (get "chain_checksum" meta) (arr items) matches;
        })

    load_from-IsVerified :
        (path : String) (files : Dict disk.Bytes) (state : PersistedState)
        → meta_path settings data_dir ≡ ok path
        → load_from settings data_dir path files ≡ ok (some state)
        → IsVerified files state
    unfolding load_from
    load_from-IsVerified path files state meta_located h =
        let (v, read, h₁) = >>=-eq-ok _ _ h in
        let (meta, object, h₂) = >>=-eq-ok _ _ h₁ in
        let (checked, version, h₃) = >>=-eq-ok _ _ h₂ in
        let (chain, loaded, h₄) = >>=-eq-ok _ _ h₃ in
        let (stakes, e, h₅) = >>=-eq-ok _ _ h₄ in
        let (key, e₁, h₆) = >>=-eq-ok _ _ h₅ in
        let (identity, e₂, h₇) = >>=-eq-ok _ _ h₆ in
        let found = load_chain-ChainFound meta files chain loaded in
        subst (IsVerified files) (some_injective (ok_injective h₇)) (record {
          path = path;
          meta = meta;
          meta_located = meta_located;
          meta_read = read ∙ ap ok (need_object-eq-ok v meta object);
          version = check_version-eq-ok meta version;
          chain_file = found.chain_file;
          chain_located = found.chain_located;
          chain_read = found.chain_read;
          chain_matches = found.chain_matches;
        })

    load_at-IsVerified :
        (path : String) (files : Dict disk.Bytes) (found : Option disk.Bytes)
        (state : PersistedState)
        → meta_path settings data_dir ≡ ok path
        → load_at settings data_dir path files found ≡ ok (some state)
        → IsVerified files state
    unfolding load_at
    load_at-IsVerified path files none state located h = absurd (ground arith)
    load_at-IsVerified path files (some content) state located h =
        load_from-IsVerified path files state located h

    -- A chain that is loaded is the array in the chain file and has the checksum that the meta file
    -- records, if it records one; the schema version in the meta file is the configured one.
    pub load-IsVerified :
        (files : Dict disk.Bytes) (state : PersistedState)
        → load settings data_dir files ≡ ok (some state)
        → IsVerified files state
    unfolding load
    load-IsVerified files state h =
        let (path, located, h₁) = >>=-eq-ok _ _ h in
        load_at-IsVerified path files (lookup path files) state located h₁
