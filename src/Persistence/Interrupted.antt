-- ===== src/Persistence/Interrupted.antt =====
-- What a save leaves behind when one of its writes fails.
use easyblockchain.Prelude.{
  ◌≡◌, ◌∙◌, ◌⊎◌, ap, sym, subst, inl, inr, refl, true, false, Bool-cases, String, some, List, ◌∷◌,
  if◌then◌else◌, str_eq,
}
use easyblockchain.Prelude.Dict.{Dict, lookup, insert, erase, lookup-insert}
use easyblockchain.Python.{Result, Result-cases, ok}
use easyblockchain.Platform.{Platform}
use easyblockchain.Settings.Records.{PersistenceSettings}
use easyblockchain.Persistence.Files.{Disk}
use easyblockchain.Persistence.Store.{PersistedState, assert_size}
use easyblockchain.Persistence.Save.{Step, run, write_bytes_atomic, after, save, save_steps}
use easyblockchain.Persistence.Layout.{Layout, Part, same_part}
use easyblockchain.Persistence.Runs.{lookup-run-Untouched, lookup-cleared, lookup-written}
use easyblockchain.Persistence.Plan.{
  plan, key_part, chain_bytes, stakes_bytes, meta_bytes, save_steps-plan, key_plan-Untouched,
}

module _ ⦃env : Platform⦄ ⦃disk : Disk⦄ where
  -- the files after a write that succeeds
  abbrev wrote : String → disk.Bytes → Dict disk.Bytes → Dict disk.Bytes
  wrote path content files = insert path content (erase (disk.tmp_path path) files)

  run-refused :
      (path : String) (content : disk.Bytes) (steps : List Step) (files : Dict disk.Bytes)
      → disk.can_write path ≡ false
      → (run (ok (some (path, content)) ∷ steps) files).1 ≡ erase (disk.tmp_path path) files
  unfolding run write_bytes_atomic
  run-refused path content steps files e = rw (write_bytes_atomic, e) refl

  run-wrote :
      (path : String) (content : disk.Bytes) (steps : List Step) (files : Dict disk.Bytes)
      → disk.can_write path ≡ true
      → run (ok (some (path, content)) ∷ steps) files ≡ run steps (wrote path content files)
  unfolding run write_bytes_atomic
  run-wrote path content steps files e = rw (write_bytes_atomic, e) refl

  lookup-wrote :
      (path : String) (content : disk.Bytes) (files : Dict disk.Bytes)
      → str_eq path path ≡ true
      → lookup path (wrote path content files) ≡ some content
  lookup-wrote path content files e =
      lookup-insert path path content _
      ∙ ap (λ t. if t then some content else lookup path (erase (disk.tmp_path path) files)) e

  module _ (settings : PersistenceSettings) (data_dir : String) (l : Layout settings data_dir)
      (state : PersistedState) where
    -- the meta file is the old one, or the three files are those of the state
    abbrev pub IsOldOrNew : Dict disk.Bytes → Dict disk.Bytes → Type 0
    IsOldOrNew files files' =
        (lookup (l.path Part.meta) files' ≡ lookup (l.path Part.meta) files)
        ⊎ ((lookup (l.path Part.chain) files' ≡ some (chain_bytes settings data_dir l state))
            × (lookup (l.path Part.stakes) files' ≡ some (stakes_bytes settings data_dir l state))
            × (lookup (l.path Part.meta) files' ≡ some (meta_bytes settings data_dir l state)))

    abbrev Kept : Dict disk.Bytes → Dict disk.Bytes → Part → Type 0
    Kept files now p = lookup (l.path p) now ≡ lookup (l.path p) files

    Kept-refused :
        (files now : Dict disk.Bytes) (q p : Part)
        → Kept files now p
        → Kept files (erase (disk.tmp_path (l.path q)) now) p
    Kept-refused files now q p kept = lookup-cleared _ _ now (l.tmp_apart q p) ∙ kept

    kept-wrote :
        (files now : Dict disk.Bytes) (q p : Part) (content : disk.Bytes)
        → same_part q p ≡ false
        → lookup (l.path p) (wrote (l.path q) content now) ≡ lookup (l.path p) now
    kept-wrote files now q p content other =
        lookup-written _ _ content now (l.apart q p ∙ other) (l.tmp_apart q p)

    -- the write of the meta file, and the keys
    from_meta :
        (files now : Dict disk.Bytes)
        → Kept files now Part.meta
        → lookup (l.path Part.chain) now ≡ some (chain_bytes settings data_dir l state)
        → lookup (l.path Part.stakes) now ≡ some (stakes_bytes settings data_dir l state)
        → IsOldOrNew files
            (run
              (ok (some (l.path Part.meta, meta_bytes settings data_dir l state))
                ∷ key_part settings data_dir l state)
              now).1
    from_meta files now kept chain stakes = elim (Bool-cases (disk.can_write (l.path Part.meta))) [
      | inr e ↦ inl (
          ap (lookup (l.path Part.meta)) (run-refused _ _ _ now e)
          ∙ Kept-refused files now Part.meta Part.meta kept)
      | inl e ↦
          subst (λ r. IsOldOrNew files r.1) (sym (run-wrote _ _ _ now e))
            (inr (
              untouched Part.chain refl refl
                  ∙ kept-wrote files now Part.meta Part.chain _ refl
                  ∙ chain,
              untouched Part.stakes refl refl
                  ∙ kept-wrote files now Part.meta Part.stakes _ refl
                  ∙ stakes,
              untouched Part.meta refl refl ∙ lookup-wrote _ _ now (l.apart Part.meta Part.meta),
            ))
    ]
      where
        written : Dict disk.Bytes
        written = wrote (l.path Part.meta) (meta_bytes settings data_dir l state) now

        untouched :
            (p : Part)
            → same_part Part.key p ≡ false
            → same_part Part.identity p ≡ false
            → lookup (l.path p) (run (key_part settings data_dir l state) written).1
              ≡ lookup (l.path p) written
        untouched p no_key no_identity =
            lookup-run-Untouched (l.path p) (key_part settings data_dir l state) written (
              key_plan-Untouched l p no_key no_identity settings.store_keys_on_disk
                state.private_key_pem state.p2p_identity_pem)

    -- the write of the stakes, and what follows
    from_stakes :
        (files now : Dict disk.Bytes)
        → Kept files now Part.meta
        → lookup (l.path Part.chain) now ≡ some (chain_bytes settings data_dir l state)
        → IsOldOrNew files
            (run
              (ok (some (l.path Part.stakes, stakes_bytes settings data_dir l state))
                ∷ ok (some (l.path Part.meta, meta_bytes settings data_dir l state))
                ∷ key_part settings data_dir l state)
              now).1
    from_stakes files now kept chain = elim (Bool-cases (disk.can_write (l.path Part.stakes))) [
      | inr e ↦ inl (
          ap (lookup (l.path Part.meta)) (run-refused _ _ _ now e)
          ∙ Kept-refused files now Part.stakes Part.meta kept)
      | inl e ↦
          subst (λ r. IsOldOrNew files r.1) (sym (run-wrote _ _ _ now e))
            (from_meta files _ (kept-wrote files now Part.stakes Part.meta _ refl ∙ kept)
              (kept-wrote files now Part.stakes Part.chain _ refl ∙ chain)
              (lookup-wrote _ _ now (l.apart Part.stakes Part.stakes)))
    ]

    run-plan-IsOldOrNew :
        (files : Dict disk.Bytes) → IsOldOrNew files (run (plan settings data_dir l state) files).1
    run-plan-IsOldOrNew files = elim (Bool-cases (disk.can_write (l.path Part.chain))) [
      | inr e ↦ inl (
          ap (lookup (l.path Part.meta)) (run-refused _ _ _ files e)
          ∙ Kept-refused files files Part.chain Part.meta refl)
      | inl e ↦
          subst (λ r. IsOldOrNew files r.1) (sym (run-wrote _ _ _ files e))
            (from_stakes files _ (kept-wrote files files Part.chain Part.meta _ refl)
              (lookup-wrote _ _ files (l.apart Part.chain Part.chain)))
    ]

    pub save-IsOldOrNew :
        (files : Dict disk.Bytes) → IsOldOrNew files (save settings data_dir state files).1
    unfolding save
    save-IsOldOrNew files = elim (Result-cases size) [
      | inr (raised, e) ↦
          subst (λ r. IsOldOrNew files (after (r, files) steps).1) (sym e) (inl refl)
      | inl (u, e) ↦
          subst (λ r. IsOldOrNew files (after (r, files) steps).1) (sym e)
            (subst (λ s. IsOldOrNew files (run s files).1)
              (sym (save_steps-plan settings data_dir l state)) (run-plan-IsOldOrNew files))
    ]
      where
        size : Result (Unit {0})
        size =
            assert_size settings.max_chain_file_bytes
              (disk.size_of (chain_bytes settings data_dir l state))

        steps : Dict disk.Bytes → Result (Unit {0}) × Dict disk.Bytes
        steps = run (save_steps settings data_dir state)
