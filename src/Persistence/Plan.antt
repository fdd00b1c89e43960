-- ===== src/Persistence/Plan.antt =====
-- The writes of `save` at the paths of a layout.
use easyblockchain.Prelude.{
  ◌≡◌, ◌∙◌, refl, Bool, true, false, String, Option, none, some, List, [], ◌∷◌,
}
use easyblockchain.Python.{Result, ok, >>=-ok}
use easyblockchain.Python.Value.{obj, arr}
use easyblockchain.Platform.{Platform}
use easyblockchain.Settings.Records.{PersistenceSettings}
use easyblockchain.Persistence.Files.{Disk}
use easyblockchain.Persistence.Store.{PersistedState, stakes_object, genesis_stakes_path}
use easyblockchain.Persistence.Save.{
  Step, write_key, saved_meta, key_steps, stored_keys, save_steps,
}
use easyblockchain.Persistence.Layout.{Layout, Part, same_part}
use easyblockchain.Persistence.Runs.{Untouched}

module _ ⦃env : Platform⦄ ⦃disk : Disk⦄ where
  abbrev pub planned_key : String → Option disk.Bytes → Step
  planned_key path none = ok none
  planned_key path (some pem) = ok (some (path, pem))

  write_key-planned_key :
      (located : Result String) (path : String) (pem : Option disk.Bytes)
      → located ≡ ok path
      → write_key located pem ≡ planned_key path pem
  write_key-planned_key located path none e = refl
  write_key-planned_key located path (some pem) e = >>=-ok _ e refl

  -- the writes of the keys, if keys are kept on disk
  abbrev pub key_plan : Bool → (Part → String) → Option disk.Bytes → Option disk.Bytes → List Step
  key_plan false path key identity = []
  key_plan true path key identity =
      ok none ∷ planned_key (path Part.key) key ∷ planned_key (path Part.identity) identity ∷ []

  module _ (settings : PersistenceSettings) (data_dir : String) (l : Layout settings data_dir)
      (state : PersistedState) where
    abbrev pub chain_bytes : disk.Bytes
    chain_bytes = disk.dump_json_bytes (arr state.chain)

    abbrev pub stakes_bytes : disk.Bytes
    stakes_bytes = disk.dump_json_bytes (obj (stakes_object state.genesis_stakes))

    abbrev pub meta_bytes : disk.Bytes
    meta_bytes = disk.dump_json_bytes (obj (saved_meta settings data_dir state))

    abbrev pub key_part : List Step
    key_part =
        key_plan settings.store_keys_on_disk l.path state.private_key_pem state.p2p_identity_pem

    abbrev pub plan : List Step
    plan =
        ok (some (l.path Part.chain, chain_bytes))
        ∷ ok (some (l.path Part.stakes, stakes_bytes))
        ∷ ok (some (l.path Part.meta, meta_bytes))
        ∷ key_part

    key_steps-key_plan :
        (store : Bool)
        → key_steps settings data_dir state store
          ≡ key_plan store l.path state.private_key_pem state.p2p_identity_pem
    unfolding stored_keys
    key_steps-key_plan false = refl
    key_steps-key_plan true = λ i.
        >>=-ok (λ (keys_dir : String). ok none) l.keys_dir_located refl i
        ∷ write_key-planned_key _ _ state.private_key_pem l.key_located i
        ∷ write_key-planned_key _ _ state.p2p_identity_pem l.identity_located i
        ∷ []

    pub save_steps-plan : save_steps settings data_dir state ≡ plan
    unfolding save_steps
    save_steps-plan = λ i.
        write_key-planned_key _ _ (some chain_bytes) l.chain_located i
        ∷ write_key-planned_key _ _ (some stakes_bytes)
            (>>=-ok (λ (path : String). genesis_stakes_path settings data_dir) l.meta_located
              l.stakes_located)
            i
        ∷ write_key-planned_key _ _ (some meta_bytes) l.meta_located i
        ∷ key_steps-key_plan settings.store_keys_on_disk i

  -- The keys' files are no other part's.
  module _ {settings : PersistenceSettings} {data_dir : String} (l : Layout settings data_dir)
      (p : Part) (no_key : same_part Part.key p ≡ false)
      (no_identity : same_part Part.identity p ≡ false) where
    planned_key-Untouched :
        (q : Part) (pem : Option disk.Bytes) (rest : List Step)
        → same_part q p ≡ false
        → Untouched (l.path p) rest
        → Untouched (l.path p) (planned_key (l.path q) pem ∷ rest)
    planned_key-Untouched q none rest e u = u
    planned_key-Untouched q (some pem) rest e u = (l.apart q p ∙ e, l.tmp_apart q p, u)

    pub key_plan-Untouched :
        (store : Bool) (key identity : Option disk.Bytes)
        → Untouched (l.path p) (key_plan store l.path key identity)
    key_plan-Untouched false key identity = tt
    key_plan-Untouched true key identity =
        planned_key-Untouched Part.key key _ no_key
          (planned_key-Untouched Part.identity identity [] no_identity tt)
