-- ===== src/Observability/Health/Authorized.antt =====
-- Who gets the metrics.
use easyblockchain.Prelude.{
  ℕ, ◌≡◌, inl, inr, Bool, true, Option-cases, String, some, List, [], ◌∷◌, arith, str_eq,
  str_eq_iff,
}
use easyblockchain.Prelude.Dict.{Dict}
use easyblockchain.Platform.{Platform}
use easyblockchain.Settings.Records.{ObservabilitySettings}
use easyblockchain.Observability.Health.{
  metrics_text, Line, requires_auth, is_authorized, authorization, serve, respond, read_headers,
  handle_client,
}
use Prim.Native.String.{◌++◌}

module _ ⦃env : Platform⦄ (settings : ObservabilitySettings) where
  -- the metrics are only at their path
  serve-metrics :
      (path : String) (ready : Bool) (rendered text : String)
      → (serve settings path ready rendered).body ≡ metrics_text text
      → str_eq path settings.metrics_path ≡ true
  unfolding serve
  serve-metrics path ready rendered text h = ground arith

  is_authorized-bearer :
      (headers : Dict String)
      → is_authorized settings headers ≡ true
      → authorization settings headers ≡ "Bearer " ++ settings.auth_token
  unfolding is_authorized
  is_authorized-bearer headers h =
      (str_eq_iff (authorization settings headers) ("Bearer " ++ settings.auth_token)).0
        (ground arith)

  respond-is_authorized :
      (method path : String) (headers : Dict String) (ready : Bool) (rendered text : String)
      → (respond settings method path headers ready rendered).body ≡ metrics_text text
      → settings.auth_enabled ≡ true
      → is_authorized settings headers ≡ true
  unfolding respond requires_auth
  respond-is_authorized method path headers ready rendered text h enabled =
      ground (arith, serve-metrics path ready rendered text)

  -- the headers that the answer rests on
  pub record HasToken (deadline : ℕ) (lines : List Line) : Type 0 where
    pub headers : Dict String
    pub were_read : read_headers deadline lines 0 0 [] ≡ some headers
    pub token : authorization settings headers ≡ "Bearer " ++ settings.auth_token

  -- With authentication enabled, an answer that holds the metrics is given only to a request whose
  -- headers have the configured token.
  pub handle_client-HasToken :
      (words : List String) (deadline : ℕ) (lines : List Line) (ready : Bool)
      (rendered text : String) (status_code : ℕ)
      → handle_client settings words deadline lines ready rendered
        ≡ some (record { status_code = status_code; body = metrics_text text })
      → settings.auth_enabled ≡ true
      → HasToken deadline lines
  unfolding handle_client
  handle_client-HasToken [] deadline lines ready rendered text status_code h enabled =
      absurd (ground arith)
  handle_client-HasToken (word ∷ []) deadline lines ready rendered text status_code h enabled =
      absurd (ground arith)
  handle_client-HasToken (method ∷ path ∷ words) deadline lines ready rendered text status_code h
        enabled =
      elim (Option-cases (read_headers deadline lines 0 0 [])) [
        | inl e ↦ absurd (ground arith)
        | inr (headers, e) ↦ record {
          headers = headers;
          were_read = e;
          token = is_authorized-bearer headers (
              respond-is_authorized method path headers ready rendered text (ground arith) enabled);
        }
      ]
