-- ===== src/ProxyPlan/Library.antt =====
-- What proxy_plan.py takes from Python's own library.
use engineering_flow_platfor.Base.{ℕ, String, Bool, Option, nat_eq, string_eq, pair_eq}
use engineering_flow_platfor.Base.Value.{Value}

-- the parts of a URL; the host is empty where there is none, the port is none where the URL has none
-- or one out of range
pub record UrlParts : Type 0 where
  pub scheme : String
  pub hostname : String
  pub port : Option ℕ
  pub path : String
  pub query : String
  pub fragment : String

-- An address is known by whether it is a loopback address and by the networks that it is in.
pub record Library : Type 1 where
  pub Address : Type 0
  pub lower : String → String
  pub upper : String → String
  pub repr : Value → String
  pub text_of_number : ℕ → String
  pub isdigit : String → Bool
  pub quote : String → String
  pub urlsplit : String → UrlParts
  -- the scheme, the network location, the path, the query and the fragment
  pub urlunsplit : String → String → String → String → String → String
  pub ip_address : String → Option Address
  pub is_loopback : Address → Bool
  pub ip_network : String → Option (Address → Bool)
