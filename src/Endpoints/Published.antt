-- ===== src/Endpoints/Published.antt =====
-- The endpoints that a process reads from the launcher, once the barrier lets it.
use lseb.Prelude.{ℕ, zero, suc, ◌+◌, ◌≤◌, ◌<◌, ◌≡◌, refl, arith, ok, List, [], ◌∷◌}
use lseb.Hydra.{get, get_world_size, ip_key, port_key, check_status}
use lseb.Hydra.Exchange.{
  Job, IsJob, ip_at, port_at, port_of, Running, started, sets_ip, sets_port, commits, leaves,
  Published,
}
use lseb.Hydra.Calls.{key_at-fits, length-port_of}
use lseb.Hydra.Progress.{Running-Published}
use lseb.Endpoints.{Endpoint, endpoints_from, get_endpoints}

-- The endpoints of `nodes` processes from process `i` on.
abbrev pub addresses : Job → ℕ → ℕ → List Endpoint
addresses job zero i = []
addresses job (suc nodes) i =
    record { hostname = job.ip i; port = port_of job i } ∷ addresses job nodes (suc i)

-- Once a process has left the barrier, all have committed.
Running-left :
    (job : Job) (s : job.pmi.State) (progress : ℕ → ℕ) (r q : ℕ)
    → Running job s progress
    → 4 ≤ progress r
    → q < job.size
    → 3 ≤ progress q
Running-left job s progress r q (started s' fresh) h k = absurd (omega arith)
Running-left job s progress r q (sets_ip old s' before n run bound z e) h k =
    ground (arith, Running-left job old before r q run)
Running-left job s progress r q (sets_port old s' before n run bound z e) h k =
    ground (arith, Running-left job old before r q run)
Running-left job s progress r q (commits old s' before n run bound z e) h k =
    ground (arith, Running-left job old before r q run)
Running-left job s progress r q (leaves old s' before n run bound z all e) h k =
    ground (arith, all q k)

module _ (job : Job) (laws : IsJob job) (s : job.pmi.State) (self : ℕ) where
  get-Published :
      (i m : ℕ)
      → i < job.size
      → 3 ≤ m
      → Published job s i m
      → (get job.pmi job.launcher s self ip_key i ≡ ok (job.ip i))
        × (get job.pmi job.launcher s self port_key i ≡ ok (port_of job i))
  unfolding get check_status
  get-Published i m h k p = (
    rw (
      key_at-fits job laws ip_key i (omega arith) h,
      laws.get_value s self (ip_at i) (job.ip i) (p.ip_common k) (laws.short_ip i),
    ),
    rw (
      key_at-fits job laws port_key i (omega arith) h,
      laws.get_value s self (port_at i) (port_of job i) (p.port_common k)
          (omega (arith, length-port_of job laws i)),
    ),
  )

  endpoints_from-addresses :
      (progress : ℕ → ℕ) (nodes i : ℕ)
      → ((q : ℕ) → Published job s q (progress q))
      → ((q : ℕ) → q < job.size → 3 ≤ progress q)
      → i + nodes ≤ job.size
      → endpoints_from job.pmi job.launcher s self nodes i ≡ ok (addresses job nodes i)
  unfolding endpoints_from
  endpoints_from-addresses progress zero i p h k = refl
  endpoints_from-addresses progress (suc nodes) i p h k =
      let (a, b) = get-Published i (progress i) (omega arith) (h i (omega arith)) (p i) in
      rw (a, b, endpoints_from-addresses progress nodes (suc i) p h (omega arith))

-- The processes of a job put their address and port, commit and wait at the barrier, in any order of
-- their calls. A process that has left the barrier gets the endpoints of all processes from
-- `get_endpoints`: in the order of the ranks, each with its address and its port, which is that of
-- the configuration plus the rank's remainder by the range.
pub get_endpoints-Running :
    (job : Job) (s : job.pmi.State) (progress : ℕ → ℕ) (self : ℕ)
    → IsJob job
    → Running job s progress
    → 4 ≤ progress self
    → get_endpoints job.pmi job.launcher s self ≡ ok (addresses job job.size 0)
unfolding get_endpoints get_world_size check_status
get_endpoints-Running job s progress self laws run h = rw (laws.size_of s self) (
    endpoints_from-addresses job laws s self progress job.size 0
      (Running-Published job s progress laws run)
      (λ q k. Running-left job s progress self q run h k) (omega arith))
