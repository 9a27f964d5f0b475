-- ===== src/Tests/Jobs.antt =====
-- A job of two processes over a key-value space of two functions, and a configuration of three nodes.
use lseb.Prelude.{
  ℕ, zero, suc, ◌+◌, ◌≤◌, ◌<◌, ◌≡◌, ◌≢◌, refl, ap, arith, ok, List, [], ◌∷◌, Option, none, some,
  ◌&&◌, ◌==◌, Bool-cases, if◌then◌else◌, ℤ, pos, eq→==, ne→==_false, ◌⊎◌, inl, inr,
}
use lseb.Hydra.Decimal.{Text, decimal, digits}
use lseb.Hydra.{
  Pmi, check_status, key_at, set_value, set_ip, set_port, commit, barrier, get_rank, port_text,
}
use lseb.Hydra.Exchange.{
  Job, IsJob, Running, started, sets_ip, sets_port, commits, leaves, ip_at, port_at, advance,
}
use lseb.Hydra.Liveness.{Succeeds, Running-next, HaveLeft}
use lseb.Endpoints.{
  Endpoint, Node, same_text, get_endpoints, configured_endpoints, find_id, id_from,
}
use lseb.Endpoints.Published.{get_endpoints-Running}
use lseb.Endpoints.Nodes.{
  same_text_refl, same_text-ne, find_id-EndpointOf, IsLast, EndpointOf, Unnamed,
}

abbrev Space : Type 0
Space = (ℕ → Text → Option Text) × (Text → Option Text)

abbrev put : Space → ℕ → Text → Text → Space
put (own, all) r k v = ((λ q j. if (r == q) && same_text k j then some v else own q j), all)

abbrev publish : Space → ℕ → Space
publish (own, all) r = (own, λ k. elim (own r k) [ none ↦ all k | some v ↦ some v ])

abbrev look_up : Space → Text → ℤ × Text
look_up s k = elim (s.1 k) [ none ↦ (pos 5, []) | some v ↦ (pos 0, v) ]

abbrev space : Pmi
space = record {
  State = Space;
  initialise = λ s r. (pos 0, s);
  finalise = λ s r. (pos 0, s);
  kvs_name_length_max = λ s r. (pos 0, 256);
  kvs_my_name = λ s r. (pos 0, []);
  rank = λ s r. (pos 0, r);
  size = λ s r. (pos 0, 2);
  barrier = λ s r. (pos 0, s);
  kvs_put = λ s r name k v. (pos 0, put s r k v);
  kvs_commit = λ s r name. (pos 0, publish s r);
  kvs_get = λ s r name k. look_up s k;
}

abbrev two : Job
two = record {
  pmi = space;
  local = λ s. s.0;
  common = λ s. s.1;
  launcher = record { kvs_name = [] };
  size = 2;
  ip = λ r. (49 + r) ∷ [];
  port = 7000;
  range = 8;
}

second : {A B : Type 0} {a c : A} {b d : B} → ◌≡◌ {A = A × B} (a, b) (c, d) → b ≡ d
second e = ap (λ p. p.1) e

put-elsewhere :
    (s : Space) (r q : ℕ) (k v j : Text) → ((r ≢ q) ⊎ (k ≢ j)) → (put s r k v).0 q j ≡ s.0 q j
put-elsewhere s r q k v j (inl h) = rw (ne→==_false r q h)
put-elsewhere s r q k v j (inr h) = elim (Bool-cases (r == q)) [
  | inl e ↦ rw (e, same_text-ne k j h)
  | inr e ↦ rw e
]

look_up-some : (s : Space) (k v : Text) → s.1 k ≡ some v → look_up s k ≡ (pos 0, v)
look_up-some s k v h = rw (look_up, h)

two-IsJob : IsJob two
two-IsJob = record {
  rank_of = λ s r. refl;
  size_of = λ s r. refl;
  put_here = λ s s' r k v e. rw (← second e, eq→== r r refl, same_text_refl k);
  put_elsewhere = λ s s' r q k v j e h. rw (← second e) (put-elsewhere s r q k v j h);
  put_common = λ s s' r k v j e. rw (← second e);
  commit_here = λ s s' r k v e h. rw (← second e, h);
  commit_elsewhere = λ s s' r k e h. rw (← second e, h);
  commit_others = λ s s' r q k e h. rw (← second e);
  commit_own = λ s s' r k v e h. rw (← second e) at h;
  barrier_local = λ s s' r q k e. rw (← second e);
  barrier_common = λ s s' r k e. rw (← second e);
  get_value = λ s r k v h l. look_up-some s k v h;
  few = omega arith;
  short_ip = λ r. omega arith;
  short_port = omega arith;
  some_ports = omega arith;
}

two-Succeeds : Succeeds two
two-Succeeds = record { puts = λ s r k v. refl; commits = λ s r. refl; barriers = λ s r. refl }

abbrev start : Space
start = ((λ r k. none), λ k. none)

abbrev ip_text : ℕ → Text
ip_text r = (49 + r) ∷ []

-- Both processes put their address, then their port, and commit.
abbrev after_ips : Space
after_ips = put (put start 0 (ip_at 0) (ip_text 0)) 1 (ip_at 1) (ip_text 1)

abbrev after_ports : Space
after_ports = put (put after_ips 1 (port_at 1) (decimal 7001)) 0 (port_at 0) (decimal 7000)

abbrev after_commits : Space
after_commits = publish (publish after_ports 0) 1

ips_put : Running two after_ips (advance (advance (λ r. 0) 0) 1)
unfolding set_ip set_value get_rank check_status key_at decimal digits
ips_put =
    sets_ip (put start 0 (ip_at 0) (ip_text 0)) after_ips (advance (λ r. 0) 0) 1
      (sets_ip start (put start 0 (ip_at 0) (ip_text 0)) (λ r. 0) 0 (started start (λ r k. refl))
        (omega arith) refl refl)
      (omega arith) refl refl

ports_put : Running two after_ports (advance (advance (advance (advance (λ r. 0) 0) 1) 1) 0)
unfolding set_port set_value get_rank check_status key_at port_text decimal digits
ports_put =
    sets_port (put after_ips 1 (port_at 1) (decimal 7001)) after_ports _ 0
      (sets_port after_ips (put after_ips 1 (port_at 1) (decimal 7001)) _ 1 ips_put (omega arith)
        refl refl)
      (omega arith) refl refl

abbrev left : ℕ → ℕ
left = advance (advance (advance (advance (advance (advance (advance (λ r. 0) 0) 1) 1) 0) 0) 1) 0

one_left : Running two after_commits left
unfolding commit barrier check_status
one_left =
    leaves after_commits after_commits _ 0
      (commits (publish after_ports 0) after_commits _ 1
        (commits after_ports (publish after_ports 0) _ 0 ports_put (omega arith) refl refl)
        (omega arith) refl refl)
      (omega arith) refl all refl
  where
    all :
        (q : ℕ)
        → q < 2
        → 3 ≤ advance (advance (advance (advance (advance (advance (λ r. 0) 0) 1) 1) 0) 0) 1 q
    all zero h = omega arith
    all (suc zero) h = omega arith
    all (suc (suc q)) h = absurd (omega arith)

get_endpoints-Running_example :
    get_endpoints space (record { kvs_name = [] }) after_commits 0
    ≡ ok (
        record { hostname = ip_text 0; port = decimal 7000 }
        ∷ record { hostname = ip_text 1; port = decimal 7001 }
        ∷ [])
get_endpoints-Running_example =
    get_endpoints-Running two after_commits left 0 two-IsJob one_left (omega arith)

Running-next_example :
    ((r : ℕ) × (r < 2) × (s' : Space) × Running two s' (advance left r)) ⊎ HaveLeft left 2
Running-next_example = Running-next two after_commits left two-IsJob two-Succeeds one_left

abbrev node : Text → Text → Node
node name host = record { name = name; host = some host; port = some (b'7' ∷ []) }

abbrev endpoint : Text → Endpoint
endpoint host = record { hostname = host; port = b'7' ∷ [] }

abbrev nodes : List Node
nodes =
    node (b'a' ∷ []) (b'x' ∷ []) ∷ node (b'b' ∷ []) (b'y' ∷ []) ∷ node (b'a' ∷ []) (b'z' ∷ []) ∷ []

read_nodes :
    configured_endpoints nodes
    ≡ ok (endpoint (b'x' ∷ []) ∷ endpoint (b'y' ∷ []) ∷ endpoint (b'z' ∷ []) ∷ [])
unfolding configured_endpoints
read_nodes = refl

find_id-EndpointOf_example :
    ((i : ℕ) × (find_id (b'a' ∷ []) nodes ≡ some i)
      × IsLast (b'a' ∷ []) nodes i
      × EndpointOf
          (b'a' ∷ [])
          nodes
          (endpoint (b'x' ∷ []) ∷ endpoint (b'y' ∷ []) ∷ endpoint (b'z' ∷ []) ∷ [])
          i)
    ⊎ ((find_id (b'a' ∷ []) nodes ≡ none) × Unnamed (b'a' ∷ []) nodes)
find_id-EndpointOf_example = find_id-EndpointOf (b'a' ∷ []) nodes _ read_nodes

last_of_two : find_id (b'a' ∷ []) nodes ≡ some 2
unfolding find_id id_from same_text
last_of_two = refl
