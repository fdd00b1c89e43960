-- ===== src/Tests/Stored.antt =====
-- A store on a disk whose bytes are the values that were dumped.
use easyblockchain.Prelude.{
  ◌≡◌, ◌⊎◌, refl, Bool, true, false, String, none, some, List, [], ◌∷◌, str_eq, not,
}
use easyblockchain.Prelude.Int.{pos}
use easyblockchain.Prelude.Dict.{Dict, lookup, insert, erase}
use easyblockchain.Python.{ok, err, chain_store_error, guard, ◌>>=◌ as bind}
use easyblockchain.Python.Value.{Value, str, obj, arr, Items, cons, nil}
use easyblockchain.Python.Fields.{find}
use easyblockchain.Dynamic.{py_eq}
use easyblockchain.Settings.Records.{PersistenceSettings}
use easyblockchain.Persistence.Files.{Disk}
use easyblockchain.Persistence.Store
use easyblockchain.Persistence.Store.{PersistedState, compute_checksum}
use easyblockchain.Persistence.Save.{
  save, run, write_bytes_atomic, save_steps, saved_meta, stored_keys,
}
use easyblockchain.Persistence.Load
use easyblockchain.Persistence.Load.{load}
use easyblockchain.Persistence.Layout.{Layout, Part, same_part}
use easyblockchain.Persistence.Verified.{IsVerified, load-IsVerified}
use easyblockchain.Persistence.Atomic.{save-load_checksum}
use easyblockchain.Tests.Toy.{toy}
use Prim.Native.String.{◌++◌}

abbrev slashed : List String → String
slashed [] = ""
slashed (name ∷ names) = "/" ++ (name ++ slashed names)

abbrev summary : Value → String
summary (arr nil) = "no blocks"
summary (arr (cons v items)) = "blocks"
summary v = "other"

-- where every file but the given one can be written
abbrev disk_without : String → Disk
disk_without refused = record {
  Bytes = Value;
  size_of = λ v. 7;
  dump_json_bytes = λ v. v;
  json_load = some;
  dumps_canonical = summary;
  joined = λ root parts. slashed parts;
  is_relative_to = λ target root. true;
  tmp_path = λ path. path ++ ".tmp";
  can_read = λ path. true;
  can_write = λ path. not (str_eq path refused);
}

abbrev whole_disk : Disk
whole_disk = disk_without ""

abbrev store_settings : PersistenceSettings
store_settings = record {
  schema_version = pos 1;
  max_chain_file_bytes = pos 100;
  chain_file = "chain.json";
  meta_file = "meta.json";
  genesis_stakes_file = "genesis_stakes.json";
  keys_dir = "keys";
  private_key_file = "node.pem";
  p2p_identity_file = "p2p_identity.pem";
  store_keys_on_disk = true;
}

abbrev path_of : Part → String
path_of Part.chain = "/chain.json"
path_of Part.meta = "/meta.json"
path_of Part.stakes = "/genesis_stakes.json"
path_of Part.key = "/keys/node.pem"
path_of Part.identity = "/keys/p2p_identity.pem"

paths_apart : (a b : Part) → str_eq (path_of a) (path_of b) ≡ same_part a b
paths_apart Part.chain Part.chain = refl
paths_apart Part.chain Part.meta = refl
paths_apart Part.chain Part.stakes = refl
paths_apart Part.chain Part.key = refl
paths_apart Part.chain Part.identity = refl
paths_apart Part.meta Part.chain = refl
paths_apart Part.meta Part.meta = refl
paths_apart Part.meta Part.stakes = refl
paths_apart Part.meta Part.key = refl
paths_apart Part.meta Part.identity = refl
paths_apart Part.stakes Part.chain = refl
paths_apart Part.stakes Part.meta = refl
paths_apart Part.stakes Part.stakes = refl
paths_apart Part.stakes Part.key = refl
paths_apart Part.stakes Part.identity = refl
paths_apart Part.key Part.chain = refl
paths_apart Part.key Part.meta = refl
paths_apart Part.key Part.stakes = refl
paths_apart Part.key Part.key = refl
paths_apart Part.key Part.identity = refl
paths_apart Part.identity Part.chain = refl
paths_apart Part.identity Part.meta = refl
paths_apart Part.identity Part.stakes = refl
paths_apart Part.identity Part.key = refl
paths_apart Part.identity Part.identity = refl

tmp_paths_apart : (a b : Part) → str_eq (path_of a ++ ".tmp") (path_of b) ≡ false
tmp_paths_apart Part.chain Part.chain = refl
tmp_paths_apart Part.chain Part.meta = refl
tmp_paths_apart Part.chain Part.stakes = refl
tmp_paths_apart Part.chain Part.key = refl
tmp_paths_apart Part.chain Part.identity = refl
tmp_paths_apart Part.meta Part.chain = refl
tmp_paths_apart Part.meta Part.meta = refl
tmp_paths_apart Part.meta Part.stakes = refl
tmp_paths_apart Part.meta Part.key = refl
tmp_paths_apart Part.meta Part.identity = refl
tmp_paths_apart Part.stakes Part.chain = refl
tmp_paths_apart Part.stakes Part.meta = refl
tmp_paths_apart Part.stakes Part.stakes = refl
tmp_paths_apart Part.stakes Part.key = refl
tmp_paths_apart Part.stakes Part.identity = refl
tmp_paths_apart Part.key Part.chain = refl
tmp_paths_apart Part.key Part.meta = refl
tmp_paths_apart Part.key Part.stakes = refl
tmp_paths_apart Part.key Part.key = refl
tmp_paths_apart Part.key Part.identity = refl
tmp_paths_apart Part.identity Part.chain = refl
tmp_paths_apart Part.identity Part.meta = refl
tmp_paths_apart Part.identity Part.stakes = refl
tmp_paths_apart Part.identity Part.key = refl
tmp_paths_apart Part.identity Part.identity = refl

layout : Layout ⦃env = toy⦄ ⦃disk = whole_disk⦄ store_settings "d"
unfolding Store.safe_child_path Store.meta_path Store.chain_path Store.genesis_stakes_path
    Store.private_key_path Store.p2p_identity_path
layout = record {
  path = path_of;
  keys_dir = "/keys";
  chain_located = refl;
  meta_located = refl;
  stakes_located = refl;
  key_located = refl;
  identity_located = refl;
  keys_dir_located = refl;
  apart = paths_apart;
  tmp_apart = tmp_paths_apart;
}

abbrev state_with :
    Items → (refused : String) → PersistedState ⦃env = toy⦄ ⦃disk = disk_without refused⦄
state_with chain refused = record {
  chain = chain;
  node_id = "n";
  genesis_prev_hash = "g";
  genesis_stakes = ("a", pos 5) ∷ [];
  private_key_pem = some (str "key");
  p2p_identity_pem = none;
}

abbrev empty_state : PersistedState ⦃env = toy⦄ ⦃disk = whole_disk⦄
empty_state = state_with nil ""

abbrev grown_state : PersistedState ⦃env = toy⦄ ⦃disk = whole_disk⦄
grown_state = state_with (cons (str "block") nil) ""

abbrev files_after : PersistedState ⦃env = toy⦄ ⦃disk = whole_disk⦄ → Dict Value → Dict Value
files_after state files = (save ⦃env = toy⦄ ⦃disk = whole_disk⦄ store_settings "d" state files).1

-- To unfold this is to unfold what saving and loading pass through.
unfoldable store_code : Bool
unfolding save run write_bytes_atomic save_steps saved_meta stored_keys load Load.load_at
    Load.load_from Load.load_chain Load.load_stakes Load.load_key Load.read_stakes
    Load.check_checksum Load.check_version Store.safe_child_path Store.meta_path Store.chain_path
    Store.genesis_stakes_path Store.private_key_path Store.p2p_identity_path Store.assert_size
    Store.read_bytes Store.read_json compute_checksum lookup insert erase find py_eq guard bind
store_code = true

loads_empty :
    load ⦃env = toy⦄ ⦃disk = whole_disk⦄ store_settings "d" (files_after empty_state [])
    ≡ ok (some empty_state)
unfolding store_code
loads_empty = refl

load-IsVerified_example :
    IsVerified ⦃env = toy⦄ ⦃disk = whole_disk⦄ store_settings "d"
      (files_after empty_state [])
      empty_state
load-IsVerified_example =
    load-IsVerified ⦃env = toy⦄ ⦃disk = whole_disk⦄ store_settings "d" (files_after empty_state [])
      empty_state loads_empty

loads_grown :
    load ⦃env = toy⦄ ⦃disk = whole_disk⦄ store_settings "d"
      (files_after grown_state (files_after empty_state []))
    ≡ ok (some grown_state)
unfolding store_code
loads_grown = refl

meta_there :
    lookup "/meta.json" (files_after empty_state [])
    ≡ some (obj (saved_meta ⦃env = toy⦄ ⦃disk = whole_disk⦄ store_settings "d" empty_state))
unfolding store_code
meta_there = refl

save-load_checksum_example :
    (compute_checksum ⦃env = toy⦄ ⦃disk = whole_disk⦄ (arr (cons (str "block") nil))
      ≡ compute_checksum ⦃env = toy⦄ ⦃disk = whole_disk⦄ (arr nil))
    ⊎ (compute_checksum ⦃env = toy⦄ ⦃disk = whole_disk⦄ (arr (cons (str "block") nil))
        ≡ compute_checksum ⦃env = toy⦄ ⦃disk = whole_disk⦄ (arr (cons (str "block") nil)))
unfolding layout
save-load_checksum_example =
    save-load_checksum ⦃env = toy⦄ ⦃disk = whole_disk⦄ store_settings "d" layout (λ v. refl)
      (files_after empty_state []) empty_state grown_state grown_state meta_there loads_grown

-- A save that is cut off between the chain and the meta file leaves a store that does not load.
cut_off :
    load ⦃env = toy⦄ ⦃disk = disk_without "/meta.json"⦄ store_settings "d"
      (save ⦃env = toy⦄ ⦃disk = disk_without "/meta.json"⦄ store_settings "d"
        (state_with (cons (str "block") nil) "/meta.json")
        (files_after empty_state [])).1
    ≡ err chain_store_error
unfolding store_code
cut_off = refl
