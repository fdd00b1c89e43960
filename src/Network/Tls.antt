-- ===== src/Network/Tls.antt =====
-- useful_blockchain/network/tls.py: which schemes and settings are accepted. A TlsConfigError is a
-- ValueError; contexts are made by the ssl library.
use easyblockchain.Prelude.{
  Bool, true, false, not, ◌||◌, ◌&&◌, String, List, [], ◌∷◌, ◌==◌, str_eq, if◌then◌else◌,
}
use easyblockchain.Python.{Result, ok, err, value_error, attribute_error, guard, ◌>>◌}
use easyblockchain.Python.Value.{Value, str}
use easyblockchain.Types.{Environment, TlsSettings}
use Prim.Native.Char.{code}

-- `s.startswith(prefix)`
unfoldable pub starts_with : String → String → Bool
starts_with String.[] s = true
starts_with (String.◌∷◌ c prefix) String.[] = false
starts_with (String.◌∷◌ c prefix) (String.◌∷◌ d s) = (code c == code d) && starts_with prefix s

abbrev pub is_production : Environment → Bool
is_production Environment.production = true
is_production Environment.development = false

unfoldable pub websocket_scheme : Bool → String
websocket_scheme tls_enabled = if tls_enabled then "wss" else "ws"

unfoldable pub url_scheme_matches_tls : String → Bool → Bool
url_scheme_matches_tls url tls_enabled =
    if starts_with "wss://" url
    then true
    else if starts_with "ws://" url
    then not tls_enabled
    else false

unfoldable pub rejects_plain_websocket : Bool → Environment → Bool
rejects_plain_websocket tls_enabled environment = tls_enabled || is_production environment

-- the loop over the bootstrap peers, which a settings file may give as any values
unfoldable pub bootstrap_peers_match : List Value → Result (Unit {0})
bootstrap_peers_match [] = ok tt
bootstrap_peers_match (str url ∷ urls) = do
  guard (url_scheme_matches_tls url true) value_error
  bootstrap_peers_match urls
bootstrap_peers_match (_ ∷ urls) = err attribute_error

-- the settings that are read, in the order in which they are
unfoldable pub validate_production_network :
    Environment → TlsSettings → Bool → List Value → Result (Unit {0})
validate_production_network environment tls allow_private_ips bootstrap_peers =
    if not (is_production environment) then ok tt else do
      guard tls.enabled value_error
      guard tls.verify_peer value_error
      guard (not (str_eq tls.cert_file "")) value_error
      guard (not (str_eq tls.key_file "")) value_error
      guard (not (str_eq tls.ca_file "")) value_error
      guard (not allow_private_ips) value_error
      bootstrap_peers_match bootstrap_peers
