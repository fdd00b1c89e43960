-- ===== src/Persistence/Saved.antt =====
-- What the files hold after a save that succeeds.
use easyblockchain.Prelude.{
  ◌≡◌, ◌∙◌, subst, refl, Bool, true, false, String, Option, none, some, List, ◌∷◌, arith,
}
use easyblockchain.Prelude.Dict.{Dict, lookup}
use easyblockchain.Python.{Result, ok, err}
use easyblockchain.Platform.{Platform}
use easyblockchain.Settings.Records.{PersistenceSettings}
use easyblockchain.Persistence.Files.{Disk}
use easyblockchain.Persistence.Store.{PersistedState, assert_size}
use easyblockchain.Persistence.Save.{Step, run, after, save}
use easyblockchain.Persistence.Layout.{Layout, Part, same_part}
use easyblockchain.Persistence.Runs.{Untouched, content_after, lookup-run, content_after_write}
use easyblockchain.Persistence.Plan.{
  plan, key_part, key_plan, chain_bytes, stakes_bytes, meta_bytes, save_steps-plan,
  key_plan-Untouched,
}

module _ ⦃env : Platform⦄ ⦃disk : Disk⦄ where
  -- a key that is kept on disk: the new one, or else the one that was there
  abbrev pub kept_key : Bool → Option disk.Bytes → Option disk.Bytes → Option disk.Bytes
  kept_key false new old = none
  kept_key true (some pem) old = some pem
  kept_key true none old = old

  after-eq-ok :
      (size : Result (Unit {0})) (files files' : Dict disk.Bytes)
      (next : Dict disk.Bytes → Result (Unit {0}) × Dict disk.Bytes)
      → after (size, files) next ≡ (ok tt, files')
      → (size ≡ ok tt) × (next files ≡ (ok tt, files'))
  after-eq-ok (ok u) files files' next h = (refl, h)
  after-eq-ok (err e) files files' next h = absurd (ground arith)

  -- the writes of three other parts
  content_after_skip :
      {settings : PersistenceSettings} {data_dir : String} (l : Layout settings data_dir) (p : Part)
      → same_part Part.chain p ≡ false
      → same_part Part.stakes p ≡ false
      → same_part Part.meta p ≡ false
      → (a b c : disk.Bytes) (steps : List Step) (old : Option disk.Bytes)
      → content_after
          (l.path p)
          (ok (some (l.path Part.chain, a))
            ∷ ok (some (l.path Part.stakes, b))
            ∷ ok (some (l.path Part.meta, c))
            ∷ steps)
          old
        ≡ content_after (l.path p) steps old
  content_after_skip l p no_chain no_stakes no_meta a b c steps old =
      rw
        (
          l.apart Part.chain p,
          l.tmp_apart Part.chain p,
          l.apart Part.stakes p,
          l.tmp_apart Part.stakes p,
          l.apart Part.meta p,
          l.tmp_apart Part.meta p,
          no_chain,
          no_stakes,
          no_meta,
        )
        refl

  -- what the steps on the keys leave at the two paths
  module _ {settings : PersistenceSettings} {data_dir : String} (l : Layout settings data_dir)
      (old : Option disk.Bytes) where
    key_content :
        (a b : Option disk.Bytes)
        → content_after (l.path Part.key) (key_plan true l.path a b) old ≡ kept_key true a old
    key_content none none = refl
    key_content none (some identity) =
        rw (l.apart Part.identity Part.key, l.tmp_apart Part.identity Part.key) refl
    key_content (some key) none = rw (l.apart Part.key Part.key) refl
    key_content (some key) (some identity) =
        rw
          (
            l.apart Part.identity Part.key,
            l.tmp_apart Part.identity Part.key,
            l.apart Part.key Part.key,
          )
          refl

    identity_content :
        (a b : Option disk.Bytes)
        → content_after (l.path Part.identity) (key_plan true l.path a b) old ≡ kept_key true b old
    identity_content none none = refl
    identity_content none (some identity) = rw (l.apart Part.identity Part.identity) refl
    identity_content (some key) none =
        rw (l.apart Part.key Part.identity, l.tmp_apart Part.key Part.identity) refl
    identity_content (some key) (some identity) = rw (l.apart Part.identity Part.identity) refl

  module _ (settings : PersistenceSettings) (data_dir : String) (l : Layout settings data_dir)
      (state : PersistedState) (files files' : Dict disk.Bytes)
      (h : save settings data_dir state files ≡ (ok tt, files')) where
    saved :
        (assert_size settings.max_chain_file_bytes
            (disk.size_of (chain_bytes settings data_dir l state))
          ≡ ok tt)
        × (run (plan settings data_dir l state) files ≡ (ok tt, files'))
    unfolding save
    saved =
        let (size, ran) = after-eq-ok _ files files' _ h in
        (
          size,
          subst (λ s. run s files ≡ (ok tt, files')) (save_steps-plan settings data_dir l state)
              ran,
        )

    holds :
        (p : Part)
        → lookup (l.path p) files'
          ≡ content_after (l.path p) (plan settings data_dir l state) (lookup (l.path p) files)
    holds p = lookup-run (l.path p) (plan settings data_dir l state) files files' saved.1

    keys_apart :
        (p : Part)
        → same_part Part.key p ≡ false
        → same_part Part.identity p ≡ false
        → Untouched (l.path p) (key_part settings data_dir l state)
    keys_apart p no_key no_identity =
        key_plan-Untouched l p no_key no_identity settings.store_keys_on_disk state.private_key_pem
          state.p2p_identity_pem

    pub size_fits :
        assert_size settings.max_chain_file_bytes
          (disk.size_of (chain_bytes settings data_dir l state))
        ≡ ok tt
    size_fits = saved.0

    pub meta_saved : lookup (l.path Part.meta) files' ≡ some (meta_bytes settings data_dir l state)
    meta_saved =
        holds Part.meta
        ∙ content_after_write (l.path Part.meta) _ (key_part settings data_dir l state) _
            (l.apart Part.meta Part.meta) (keys_apart Part.meta refl refl)

    pub stakes_saved :
        lookup (l.path Part.stakes) files' ≡ some (stakes_bytes settings data_dir l state)
    stakes_saved =
        holds Part.stakes
        ∙ content_after_write (l.path Part.stakes) _
            (ok (some (l.path Part.meta, meta_bytes settings data_dir l state))
              ∷ key_part settings data_dir l state)
            _ (l.apart Part.stakes Part.stakes)
            (
              l.apart Part.meta Part.stakes,
              l.tmp_apart Part.meta Part.stakes,
              keys_apart Part.stakes refl refl,
            )

    pub chain_saved :
        lookup (l.path Part.chain) files' ≡ some (chain_bytes settings data_dir l state)
    chain_saved =
        holds Part.chain
        ∙ content_after_write (l.path Part.chain) _
            (ok (some (l.path Part.stakes, stakes_bytes settings data_dir l state))
              ∷ ok (some (l.path Part.meta, meta_bytes settings data_dir l state))
              ∷ key_part settings data_dir l state)
            _ (l.apart Part.chain Part.chain)
            (
              l.apart Part.stakes Part.chain,
              l.tmp_apart Part.stakes Part.chain,
              (
                l.apart Part.meta Part.chain,
                l.tmp_apart Part.meta Part.chain,
                keys_apart Part.chain refl refl,
              ),
            )

    -- at the path of a key, the first three writes have changed nothing
    key_part_holds :
        (p : Part)
        → same_part Part.chain p ≡ false
        → same_part Part.stakes p ≡ false
        → same_part Part.meta p ≡ false
        → lookup (l.path p) files'
          ≡ content_after (l.path p) (key_part settings data_dir l state) (lookup (l.path p) files)
    key_part_holds p no_chain no_stakes no_meta =
        holds p
        ∙ content_after_skip l p no_chain no_stakes no_meta (chain_bytes settings data_dir l state)
            (stakes_bytes settings data_dir l state) (meta_bytes settings data_dir l state)
            (key_part settings data_dir l state) (lookup (l.path p) files)

    module _ (store : settings.store_keys_on_disk ≡ true) where
      pub key_saved :
          lookup (l.path Part.key) files'
          ≡ kept_key true state.private_key_pem (lookup (l.path Part.key) files)
      key_saved =
          key_part_holds Part.key refl refl refl
          ∙ rw store (key_content l _ state.private_key_pem state.p2p_identity_pem)

      pub identity_saved :
          lookup (l.path Part.identity) files'
          ≡ kept_key true state.p2p_identity_pem (lookup (l.path Part.identity) files)
      identity_saved =
          key_part_holds Part.identity refl refl refl
          ∙ rw store (identity_content l _ state.private_key_pem state.p2p_identity_pem)
