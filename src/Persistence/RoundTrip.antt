-- ===== src/Persistence/RoundTrip.antt =====
-- What has been saved is loaded again.
use easyblockchain.Prelude.{◌≡◌, true, String, none, some, [], ◌∷◌, ◌++◌}
use easyblockchain.Prelude.Int.{ℤ}
use easyblockchain.Prelude.Dict.{Dict, lookup}
use easyblockchain.Python.{ok}
use easyblockchain.Python.Value.{Value}
use easyblockchain.Platform.{Platform}
use easyblockchain.Settings.Records.{PersistenceSettings}
use easyblockchain.Persistence.Files.{Disk}
use easyblockchain.Persistence.Store.{PersistedState}
use easyblockchain.Persistence.Save.{save}
use easyblockchain.Persistence.Layout.{Layout, Part}
use easyblockchain.Persistence.Saved.{kept_key}

-- no key of the second is one of the first, or comes twice
abbrev pub AreNew : Dict ℤ → Dict ℤ → Type 0
AreNew seen [] = Unit
AreNew seen ((id, stake) ∷ rest) = (lookup id seen ≡ none) × AreNew (seen ++ (id, stake) ∷ []) rest

module _ ⦃env : Platform⦄ ⦃disk : Disk⦄ (settings : PersistenceSettings) (data_dir : String) where
  module _ (faithful : (v : Value) → disk.json_load (disk.dump_json_bytes v) ≡ some v)
      (readable : (path : String) → disk.can_read path ≡ true) where
    module _ (l : Layout settings data_dir) (state : PersistedState)
        (files files' : Dict disk.Bytes)
        (saved : save settings data_dir state files ≡ (ok tt, files'))
        (new : AreNew [] state.genesis_stakes) where
      -- the state, with the key files that were there where it has no keys of its own
      abbrev pub kept_state : PersistedState
      kept_state = record state {
        private_key_pem =
            kept_key settings.store_keys_on_disk state.private_key_pem
              (lookup (l.path Part.key) files);
        p2p_identity_pem =
            kept_key settings.store_keys_on_disk state.p2p_identity_pem
              (lookup (l.path Part.identity) files);
      }
