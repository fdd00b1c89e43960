-- ===== src/Persistence/Files.antt =====
-- What useful_blockchain/persistence/store.py takes from pathlib, os and json: bytes, paths, and
-- which files can be read and written.
use easyblockchain.Prelude.{ℕ, Bool, String, Option, List}
use easyblockchain.Python.Value.{Value}

pub record Disk : Type 1 where
  pub Bytes : Type 0
  pub size_of : Bytes → ℕ
  -- json.dumps(v, indent=2, ensure_ascii=False).encode("utf-8"), and json.load (absent: the errors
  -- of decoding)
  pub dump_json_bytes : Value → Bytes
  pub json_load : Bytes → Option Value
  -- json.dumps(v, sort_keys=True, ensure_ascii=False)
  pub dumps_canonical : Value → String
  -- root.joinpath(*parts).resolve(strict=False), target.is_relative_to(root)
  pub joined : String → List String → String
  pub is_relative_to : String → String → Bool
  -- path.with_suffix(path.suffix + ".tmp")
  pub tmp_path : String → String
  -- whether opening the file, or replacing it, raises no OSError
  pub can_read : String → Bool
  pub can_write : String → Bool
