-- ===== src/Network/Addresses.antt =====
-- What peer_url.py takes from urllib.parse, ipaddress, socket and str. An address object is a
-- number, equal for equal addresses; so is a network object.
use easyblockchain.Prelude.{ℕ, Bool, String, Option, List}

pub record ParseResult : Type 0 where
  pub scheme : String
  pub hostname : Option String
  pub username : Option String
  pub password : Option String
  pub path : String
  pub query : String
  pub fragment : String
  -- absent: ValueError; no port in the URL: `some none`
  pub port : Option (Option ℕ)

pub record Addresses : Type 0 where
  -- absent: ValueError
  pub urlparse : String → Option ParseResult
  pub ip_network : String → Option ℕ
  pub ip_address : String → Option ℕ
  -- the hosts that getaddrinfo answers, each with whether its family is AF_INET or AF_INET6; none
  -- where it raises
  pub getaddrinfo : String → List (Bool × String)
  pub in_network : ℕ → ℕ → Bool
  -- absent for an IPv4 address
  pub ipv4_mapped : ℕ → Option ℕ
  pub is_global : ℕ → Bool
  pub is_reserved : ℕ → Bool
  pub is_multicast : ℕ → Bool
  pub is_private : ℕ → Bool
  pub is_loopback : ℕ → Bool
  pub lower : String → String
  pub split_dots : String → List String
  pub isdigit : String → Bool
  -- str(address)
  pub show_ip : ℕ → String
