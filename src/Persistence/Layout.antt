-- ===== src/Persistence/Layout.antt =====
-- Where the parts of a store lie: five files at different paths, none of them at the temporary path
-- of another.
use easyblockchain.Prelude.{◌≡◌, Bool, true, false, String, str_eq}
use easyblockchain.Python.{ok}
use easyblockchain.Platform.{Platform}
use easyblockchain.Settings.Records.{PersistenceSettings}
use easyblockchain.Persistence.Files.{Disk}
use easyblockchain.Persistence.Store.{
  meta_path, chain_path, genesis_stakes_path, private_key_path, p2p_identity_path, safe_child_path,
}
use easyblockchain.Prelude.{[], ◌∷◌}

pub data Part : Type 0 where
  chain meta stakes key identity : Part

abbrev pub same_part : Part → Part → Bool
same_part Part.chain Part.chain = true
same_part Part.meta Part.meta = true
same_part Part.stakes Part.stakes = true
same_part Part.key Part.key = true
same_part Part.identity Part.identity = true
same_part _ _ = false

module _ ⦃env : Platform⦄ ⦃disk : Disk⦄ where
  pub record Layout (settings : PersistenceSettings) (data_dir : String) : Type 0 where
    pub path : Part → String
    pub keys_dir : String
    pub chain_located : chain_path settings data_dir ≡ ok (path Part.chain)
    pub meta_located : meta_path settings data_dir ≡ ok (path Part.meta)
    pub stakes_located : genesis_stakes_path settings data_dir ≡ ok (path Part.stakes)
    pub key_located : private_key_path settings data_dir ≡ ok (path Part.key)
    pub identity_located : p2p_identity_path settings data_dir ≡ ok (path Part.identity)
    pub keys_dir_located : safe_child_path data_dir (settings.keys_dir ∷ []) ≡ ok keys_dir
    pub apart : (a b : Part) → str_eq (path a) (path b) ≡ same_part a b
    pub tmp_apart : (a b : Part) → str_eq (disk.tmp_path (path a)) (path b) ≡ false
