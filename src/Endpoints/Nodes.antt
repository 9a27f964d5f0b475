-- ===== src/Endpoints/Nodes.antt =====
-- The node's own id, and the endpoints of the configuration.
use lseb.Prelude.{
  ℕ, zero, suc, ◌+◌, ◌≡◌, ◌≢◌, refl, sym, ap, ◌∙◌, arith, ok, List, [], ◌∷◌, Option, none, some,
  get_elem?, true, false, Bool-cases, eq→==, ◌⊎◌, inl, inr, >>=-eq-ok, ok-injective,
}
use lseb.Hydra.Decimal.{Text}
use lseb.Endpoints.{Endpoint, Node, same_text, id_from, find_id, configured_endpoints, required}

pub same_text-eq : (t u : Text) → same_text t u ≡ true → t ≡ u
unfolding same_text
same_text-eq [] [] e = refl
same_text-eq [] (d ∷ u) e = cc
same_text-eq (c ∷ t) [] e = cc
same_text-eq (c ∷ t) (d ∷ u) e = ground (arith, same_text-eq t u)

pub same_text_refl : (t : Text) → same_text t t ≡ true
unfolding same_text
same_text_refl [] = refl
same_text_refl (c ∷ t) = rw (eq→== c c refl, same_text_refl t)

pub same_text-ne : (t u : Text) → t ≢ u → same_text t u ≡ false
same_text-ne t u h = elim (Bool-cases (same_text t u)) [
  | inl e ↦ absurd (h (same_text-eq t u e))
  | inr e ↦ e
]

-- No node has the name.
abbrev pub Unnamed : Text → List Node → Type 0
Unnamed nodename [] = Unit {0}
Unnamed nodename (node ∷ nodes) = (node.name ≢ nodename) × Unnamed nodename nodes

-- Node `i` is the last one of the name.
abbrev pub IsLast : Text → List Node → ℕ → Type 0
IsLast nodename [] i = ⊥
IsLast nodename (node ∷ nodes) zero = (node.name ≡ nodename) × Unnamed nodename nodes
IsLast nodename (node ∷ nodes) (suc i) = IsLast nodename nodes i

id_from-cases :
    (nodename : Text) (nodes : List Node) (i : ℕ) (id : Option ℕ)
    → ((id_from nodename nodes i id ≡ id) × Unnamed nodename nodes)
      ⊎ ((j : ℕ) × (id_from nodename nodes i id ≡ some (i + j)) × IsLast nodename nodes j)
unfolding id_from
id_from-cases nodename [] i id = inl (refl, tt)
id_from-cases nodename (node ∷ nodes) i id = elim (Bool-cases (same_text node.name nodename)) [
  | inl e ↦ elim (id_from-cases nodename nodes (suc i) (some i)) [
    | inl (f, u) ↦ inr (0, rw e (f ∙ ap some (omega arith)), (same_text-eq node.name nodename e, u))
    | inr (j, f, l) ↦ inr (suc j, rw e (f ∙ ap some (omega arith)), l)
  ]
  | inr e ↦ elim (id_from-cases nodename nodes (suc i) id) [
    | inl (f, u) ↦ inl (
      rw e f,
      (
        λ same. cc (e, sym (same_text_refl nodename) ∙ ap (λ t. same_text t nodename) (sym same)),
        u,
      ),
    )
    | inr (j, f, l) ↦ inr (suc j, rw e (f ∙ ap some (omega arith)), l)
  ]
]

-- The endpoint at place `i` is that of the node at this place, which has the name.
abbrev pub EndpointOf : Text → List Node → List Endpoint → ℕ → Type 0
EndpointOf nodename nodes endpoints i =
    (node : Node) × (get_elem? nodes i ≡ some node)
    × (node.name ≡ nodename)
    × (endpoint : Endpoint) × (get_elem? endpoints i ≡ some endpoint)
    × (node.host ≡ some endpoint.hostname)
    × (node.port ≡ some endpoint.port)

required-some : (o : Option Text) (t : Text) → required o ≡ ok t → o ≡ some t
required-some none t e = cc
required-some (some u) t e = ap some (ok-injective e)

placed :
    (nodename : Text) (node : Node) (nodes : List Node) (host port : Text) (rest : List Endpoint)
    (i : ℕ)
    → node.host ≡ some host
    → node.port ≡ some port
    → ((j : ℕ) → IsLast nodename nodes j → EndpointOf nodename nodes rest j)
    → IsLast nodename (node ∷ nodes) i
    → EndpointOf nodename (node ∷ nodes) (record { hostname = host; port = port } ∷ rest) i
placed nodename node nodes host port rest zero a b later h =
    (node, refl, h.0, record { hostname = host; port = port }, refl, a, b)
placed nodename node nodes host port rest (suc i) a b later h = later i h

IsLast-EndpointOf :
    (nodename : Text) (nodes : List Node) (endpoints : List Endpoint) (i : ℕ)
    → configured_endpoints nodes ≡ ok endpoints
    → IsLast nodename nodes i
    → EndpointOf nodename nodes endpoints i
unfolding configured_endpoints
IsLast-EndpointOf nodename [] endpoints i e h = absurd h
IsLast-EndpointOf nodename (node ∷ nodes) endpoints i e h =
    let (host, a, e') = >>=-eq-ok (required node.host) _ e in
    let (port, b, e'') = >>=-eq-ok (required node.port) _ e' in
    let (rest, c, f) = >>=-eq-ok (configured_endpoints nodes) _ e'' in
    let same = ok-injective f in
    rw (← same) (
      placed nodename node nodes host port rest i (required-some node.host host a)
        (required-some node.port port b) (λ j l. IsLast-EndpointOf nodename nodes rest j c l) h)

-- The search for the node's name in the section of the configuration finds the last node of this
-- name, and the endpoint read for this place is that node's; or no node has the name, and the
-- program gives up.
pub find_id-EndpointOf :
    (nodename : Text) (nodes : List Node) (endpoints : List Endpoint)
    → configured_endpoints nodes ≡ ok endpoints
    → ((i : ℕ) × (find_id nodename nodes ≡ some i)
        × IsLast nodename nodes i
        × EndpointOf nodename nodes endpoints i)
      ⊎ ((find_id nodename nodes ≡ none) × Unnamed nodename nodes)
unfolding find_id
find_id-EndpointOf nodename nodes endpoints e = elim (id_from-cases nodename nodes 0 none) [
  | inl (f, u) ↦ inr (f, u)
  | inr (i, f, l) ↦
      inl (i, f ∙ ap some (omega arith), l, IsLast-EndpointOf nodename nodes endpoints i e l)
]
