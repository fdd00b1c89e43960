-- ===== src/Tests/Health.antt =====
-- A scrape of the metrics with a token.
use easyblockchain.Prelude.{◌≡◌, ◌<◌, refl, true, false, some, List, [], ◌∷◌, length}
use easyblockchain.Prelude.Int.{pos}
use easyblockchain.Prelude.Dict.{lookup, insert}
use easyblockchain.Hash.{text_length}
use easyblockchain.Settings.Names.{has_char}
use easyblockchain.Settings.Records.{ObservabilitySettings, LogFormat}
use easyblockchain.Observability.Health.{
  Line, metrics_text, handle_client, read_headers, respond, serve, add_header, is_authorized,
  requires_auth, max_header_lines, max_header_bytes,
}
use easyblockchain.Observability.Health.Authorized.{HasToken, handle_client-HasToken}
use easyblockchain.Observability.Health.Bounded.{read_headers_bound, head_of, total_size}
use easyblockchain.Tests.Toy.{toy}

abbrev observed : ObservabilitySettings
observed = record {
  enabled = true;
  host = "h";
  port = pos 9090;
  log_format = LogFormat.text;
  health_path = "/healthz";
  ready_path = "/readyz";
  metrics_path = "/metrics";
  min_peers_for_ready = pos 0;
  auth_enabled = true;
  auth_token = "t";
}

abbrev request_lines : List Line
request_lines =
    record { size = 25; text = "authorization:Bearer t"; blank = false; time = 1 }
    ∷ record { size = 2; text = ""; blank = true; time = 1 }
    ∷ []

headers_read :
    read_headers ⦃env = toy⦄ 5 request_lines 0 0 [] ≡ some (("authorization", "Bearer t") ∷ [])
unfolding read_headers add_header has_char insert
headers_read = refl

scraped :
    handle_client ⦃env = toy⦄ observed ("GET" ∷ "/metrics" ∷ []) 5 request_lines true "m"
    ≡ some (record { status_code = 200; body = metrics_text "m" })
unfolding handle_client respond serve is_authorized requires_auth read_headers add_header has_char
    insert lookup text_length
scraped = refl

handle_client-HasToken_example : HasToken ⦃env = toy⦄ observed 5 request_lines
handle_client-HasToken_example =
    handle_client-HasToken ⦃env = toy⦄ observed ("GET" ∷ "/metrics" ∷ []) 5 request_lines true "m"
      "m" 200 scraped refl

read_headers_bound_example :
    (length (head_of request_lines) < max_header_lines)
    × (total_size (head_of request_lines) < max_header_bytes)
read_headers_bound_example =
    read_headers_bound ⦃env = toy⦄ 5 request_lines (("authorization", "Bearer t") ∷ []) headers_read
