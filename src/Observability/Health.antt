-- ===== src/Observability/Health.antt =====
-- useful_blockchain/observability/health_server.py: the reading of a request's headers and the
-- answer. A line comes with its length in bytes, its text, stripped, and the time at which it has
-- come; the request line comes split into words.
pub mod Bounded
pub mod Authorized
use easyblockchain.Prelude.{
  ℕ, suc, ◌+◌, ◌≡◌, Bool, true, false, not, ◌||◌, ◌&&◌, String, Option, none, some, List, [], ◌∷◌,
  leb, ltb, ◌==◌, str_eq, if◌then◌else◌,
}
use easyblockchain.Prelude.Dict.{Dict, lookup, insert}
use easyblockchain.Platform.{Platform}
use easyblockchain.Hash.{text_length}
use easyblockchain.Settings.Names.{has_char}
use easyblockchain.Settings.Records.{ObservabilitySettings}
use Prim.Native.Char.{code}
use Prim.Native.String.{◌++◌}

-- _MAX_HEADER_LINES, _MAX_HEADER_BYTES
abbrev pub max_header_lines : ℕ
max_header_lines = 100

abbrev pub max_header_bytes : ℕ
max_header_bytes = 16384

pub record Line : Type 0 where
  pub size : ℕ
  pub text : String
  -- a line with nothing but its end
  pub blank : Bool
  pub time : ℕ

-- The answer's body, by where it comes from.
pub data Body : Type 0 where
  empty metrics_disabled : Body
  status_json : String → Body
  metrics_text : String → Body

pub record Response : Type 0 where
  pub status_code : ℕ
  pub body : Body

-- `text.partition(":")`, its first and its last part
before_colon : String → String
before_colon String.[] = String.[]
before_colon (String.◌∷◌ c s) =
    let rest = before_colon s in if code c == 58 then String.[] else String.◌∷◌ c rest

after_colon : String → String
after_colon String.[] = String.[]
after_colon (String.◌∷◌ c s) = let rest = after_colon s in if code c == 58 then s else rest

module _ ⦃env : Platform⦄ where
  -- a header line that is kept
  unfoldable pub add_header : String → Dict String → Dict String
  unfolding before_colon after_colon
  add_header text headers =
      if has_char 58 text
      then insert (env.lower (env.strip (before_colon text))) (env.strip (after_colon text)) headers
      else headers

  -- The loop over the lines, with the lines and bytes so far; absent where it returns. The end of
  -- the list is the end of the stream.
  unfoldable pub read_headers : ℕ → List Line → ℕ → ℕ → Dict String → Option (Dict String)
  read_headers deadline [] lines bytes headers =
      if leb max_header_lines lines || leb max_header_bytes bytes then none else some headers
  read_headers deadline (line ∷ rest) lines bytes headers =
      let later =
        read_headers deadline rest (suc lines) (bytes + line.size) (add_header line.text headers) in
      if leb max_header_lines lines || leb max_header_bytes bytes
      then none
      else if leb deadline line.time
      then none
      else if line.blank
      then some headers
      else if ltb max_header_bytes (bytes + line.size)
      then none
      else later

  module _ (settings : ObservabilitySettings) where
    -- `_requires_auth`
    unfoldable pub requires_auth : String → Bool
    requires_auth path = settings.auth_enabled && str_eq path settings.metrics_path

    abbrev pub authorization : Dict String → String
    authorization headers = elim (lookup "authorization" headers) [ none ↦ "" | some v ↦ v ]

    -- `_is_authorized`
    unfoldable pub is_authorized : Dict String → Bool
    is_authorized headers =
        (text_length (authorization headers) == text_length ("Bearer " ++ settings.auth_token))
        && str_eq (authorization headers) ("Bearer " ++ settings.auth_token)

    -- a GET request that needs no authorization or has it
    unfoldable pub serve : String → Bool → String → Response
    serve path ready rendered =
        if str_eq path settings.health_path
        then record { status_code = 200; body = status_json "ok" }
        else if str_eq path settings.ready_path
        then (if ready
            then record { status_code = 200; body = status_json "ready" }
            else record { status_code = 503; body = status_json "not_ready" })
        else if str_eq path settings.metrics_path
        then (if str_eq rendered ""
            then record { status_code = 503; body = metrics_disabled }
            else record { status_code = 200; body = metrics_text rendered })
        else record { status_code = 404; body = empty }

    -- the answer, with what the readiness checker and the metrics return
    unfoldable pub respond : String → String → Dict String → Bool → String → Response
    unfolding serve
    respond method path headers ready rendered =
        if not (str_eq method "GET")
        then record { status_code = 405; body = empty }
        else if requires_auth path && not (is_authorized headers)
        then record { status_code = 401; body = empty }
        else serve path ready rendered

    -- `_handle_client`; absent where the connection is closed without an answer
    unfoldable pub handle_client : List String → ℕ → List Line → Bool → String → Option Response
    unfolding respond read_headers
    handle_client (method ∷ path ∷ words) deadline lines ready rendered =
        elim (read_headers deadline lines 0 0 []) [
          | none ↦ none
          | some headers ↦ some (respond method path headers ready rendered)
        ]
    handle_client _ deadline lines ready rendered = none
