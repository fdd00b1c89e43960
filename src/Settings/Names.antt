-- ===== src/Settings/Names.antt =====
-- useful_blockchain/settings.py: names out of fixed sets, hashes, and file names.
use easyblockchain.Prelude.{
  ℕ, Bool, true, false, not, ◌||◌, ◌&&◌, String, ◌==◌, str_eq, if◌then◌else◌,
}
use easyblockchain.Python.{Result, ok, err, value_error, guard, ◌>>◌}
use easyblockchain.Python.Value.{str, Fields}
use easyblockchain.Python.Fields.{get_or}
use easyblockchain.Platform.{Platform}
use easyblockchain.Types.{Environment, GenesisSettings, ConsensusType}
use easyblockchain.Hash.{text_length}
use easyblockchain.Settings.Values.{text_of}
use easyblockchain.Settings.Records.{LogFormat}
use Prim.Native.Char.{code}

-- `c in s` for one character, by its code
unfoldable pub has_char : ℕ → String → Bool
has_char c String.[] = false
has_char c (String.◌∷◌ d s) = (c == code d) || has_char c s

-- `all(c in allowed for c in s)`
unfoldable pub only_chars : String → String → Bool
unfolding has_char
only_chars allowed String.[] = true
only_chars allowed (String.◌∷◌ c s) = has_char (code c) allowed && only_chars allowed s

abbrev pub hex_digits : String
hex_digits = "0123456789abcdef"

abbrev default_genesis_prev_hash : String
default_genesis_prev_hash = "0000000000000000000000000000000000000000000000000000000000000000"

module _ ⦃env : Platform⦄ where
  level_number : String → Result ℕ
  level_number name =
      if str_eq name "DEBUG"
      then ok 10
      else if str_eq name "INFO"
      then ok 20
      else if str_eq name "WARNING"
      then ok 30
      else if str_eq name "ERROR"
      then ok 40
      else if str_eq name "CRITICAL"
      then ok 50
      else err value_error

  unfoldable pub resolve_log_level : String → Result ℕ
  unfolding level_number
  resolve_log_level name = level_number (env.upper (env.strip name))

  format_named : String → Result LogFormat
  format_named name =
      if str_eq name "text"
      then ok LogFormat.text
      else if str_eq name "json"
      then ok LogFormat.json
      else err value_error

  unfoldable pub resolve_log_format : String → Result LogFormat
  unfolding format_named
  resolve_log_format name = format_named (env.lower (env.strip name))

  environment_named : String → Result Environment
  environment_named name =
      if str_eq name "development"
      then ok Environment.development
      else if str_eq name "production"
      then ok Environment.production
      else err value_error

  unfoldable pub parse_environment : String → Result Environment
  unfolding environment_named
  parse_environment name = environment_named (env.lower (env.strip name))

  consensus_named : String → Result ConsensusType
  consensus_named name =
      if str_eq name "pow"
      then ok ConsensusType.pow
      else if str_eq name "pos"
      then ok ConsensusType.pos
      else err value_error

  unfoldable pub parse_consensus_type : Fields → Result ConsensusType
  unfolding consensus_named
  parse_consensus_type mapping =
      consensus_named (env.lower (text_of (get_or "type" mapping (str "pow"))))

  -- A name that is no path: neither empty, `.` nor `..`, with no slash of either kind.
  abbrev pub is_basename : String → Bool
  is_basename name =
      not (str_eq name "" || (str_eq name "." || str_eq name ".."))
      && (str_eq (env.path_name name) name && not (has_char 47 name || has_char 92 name))

  unfoldable pub parse_safe_basename : String → String → Result String
  parse_safe_basename value default =
      let name = if str_eq value "" then default else value in
      if is_basename name then ok name else err value_error

  -- `_normalize_data_dir`
  unfoldable pub normalize_data_dir : String → String
  normalize_data_dir value = env.resolved_path (if str_eq value "" then "./data" else value)

  unfoldable pub parse_genesis : Fields → Result GenesisSettings
  unfolding only_chars
  parse_genesis mapping = do
    let prev_hash = env.lower (text_of (get_or "prev_hash" mapping (str default_genesis_prev_hash)))
    guard (text_length prev_hash == 64) value_error
    guard (only_chars hex_digits prev_hash) value_error
    ok (record { prev_hash = prev_hash })
