-- ===== src/Endpoints.antt =====
-- transport/endpoints.h, and the search for the node's own id in main.cpp: the addresses of all nodes, from the configuration
-- or from the launcher.
pub mod Nodes
pub mod Published
use lseb.Prelude.{
  ℕ, zero, suc, ◌+◌, Bool, true, false, ◌&&◌, Result, ok, err, thrown, Exception, ◌>>=◌, ◌==◌,
  if◌then◌else◌, List, [], ◌∷◌, Option, none, some,
}
use lseb.Hydra.Decimal.{Text}
use lseb.Hydra.{Pmi, HydraLauncher, get, get_world_size, ip_key, port_key}

pub record Endpoint : Type 0 where
  pub hostname : Text
  pub port : Text

-- The rounds of the loop from node `i` on.
unfoldable pub endpoints_from :
    (pmi : Pmi) → HydraLauncher → pmi.State → ℕ → ℕ → ℕ → Result (List Endpoint)
endpoints_from pmi l s self zero i = ok []
endpoints_from pmi l s self (suc nodes) i = do
  ip ← get pmi l s self ip_key i
  port ← get pmi l s self port_key i
  rest ← endpoints_from pmi l s self nodes (suc i)
  ok (record { hostname = ip; port = port } ∷ rest)

unfoldable pub get_endpoints : (pmi : Pmi) → HydraLauncher → pmi.State → ℕ → Result (List Endpoint)
get_endpoints pmi l s self = do
  nodes ← get_world_size pmi s self
  endpoints_from pmi l s self nodes 0

-- A node in the section of the configuration, with what is found under `HOST` and `PORT`.
pub record Node : Type 0 where
  pub name : Text
  pub host : Option Text
  pub port : Option Text

abbrev pub required : Option Text → Result Text
required none = err (thrown Exception.missing_path)
required (some text) = ok text

unfoldable pub configured_endpoints : List Node → Result (List Endpoint)
configured_endpoints [] = ok []
configured_endpoints (node ∷ nodes) = do
  host ← required node.host
  port ← required node.port
  rest ← configured_endpoints nodes
  ok (record { hostname = host; port = port } ∷ rest)

unfoldable pub same_text : Text → Text → Bool
same_text [] [] = true
same_text [] (d ∷ u) = false
same_text (c ∷ t) [] = false
same_text (c ∷ t) (d ∷ u) = (c == d) && same_text t u

-- The loop of `main` from node `i` on: a later node of the same name takes the place of an earlier one.
unfoldable pub id_from : Text → List Node → ℕ → Option ℕ → Option ℕ
id_from nodename [] i id = id
id_from nodename (node ∷ nodes) i id =
    id_from nodename nodes (suc i) (if same_text node.name nodename then some i else id)

-- `none` stands for the program's end with `EXIT_FAILURE`.
unfoldable pub find_id : Text → List Node → Option ℕ
find_id nodename nodes = id_from nodename nodes 0 none
