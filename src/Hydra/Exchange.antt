-- ===== src/Hydra/Exchange.antt =====
-- The exchange of the addresses: the job's processes publish theirs in any order of their calls.
use lseb.Prelude.{
  ℕ, suc, ◌+◌, ◌%◌, ◌≤◌, ◌<◌, ◌≡◌, ◌≢◌, ok, if◌then◌else◌, ◌==◌, ◌∷◌, ◌++◌, length, Option, none,
  some, pos, int_bound, ◌⊎◌,
}
use lseb.Hydra.Decimal.{Text, decimal, power}
use lseb.Hydra.{Pmi, HydraLauncher, ip_key, port_key, barrier, commit, set_ip, set_port}

-- The processes of a job: PMI with two observers, the pairs that a process has put and not committed, and the pairs that
-- are committed; the addresses; and the settings.
pub record Job : Type 1 where
  pub pmi : Pmi
  pub local : pmi.State → ℕ → Text → Option Text
  pub common : pmi.State → Text → Option Text
  pub launcher : HydraLauncher
  pub size : ℕ
  pub ip : ℕ → Text
  pub port : ℕ
  pub range : ℕ

abbrev pub ip_at : ℕ → Text
ip_at r = ip_key ++ b'-' ∷ decimal r

abbrev pub port_at : ℕ → Text
port_at r = port_key ++ b'-' ∷ decimal r

abbrev pub port_of : Job → ℕ → Text
port_of job r = decimal (job.port + r % job.range)

-- What PMI documents of its calls, and that the settings fit the buffers.
pub record IsJob (job : Job) : Type 0 where
  pub rank_of : (s : job.pmi.State) (r : ℕ) → job.pmi.rank s r ≡ (pos 0, r)
  pub size_of : (s : job.pmi.State) (r : ℕ) → job.pmi.size s r ≡ (pos 0, job.size)
  pub put_here :
      (s s' : job.pmi.State) (r : ℕ) (k v : Text)
      → job.pmi.kvs_put s r job.launcher.kvs_name k v ≡ (pos 0, s')
      → job.local s' r k ≡ some v
  pub put_elsewhere :
      (s s' : job.pmi.State) (r q : ℕ) (k v j : Text)
      → job.pmi.kvs_put s r job.launcher.kvs_name k v ≡ (pos 0, s')
      → ((r ≢ q) ⊎ (k ≢ j))
      → job.local s' q j ≡ job.local s q j
  pub put_common :
      (s s' : job.pmi.State) (r : ℕ) (k v j : Text)
      → job.pmi.kvs_put s r job.launcher.kvs_name k v ≡ (pos 0, s')
      → job.common s' j ≡ job.common s j
  pub commit_here :
      (s s' : job.pmi.State) (r : ℕ) (k v : Text)
      → job.pmi.kvs_commit s r job.launcher.kvs_name ≡ (pos 0, s')
      → job.local s r k ≡ some v
      → job.common s' k ≡ some v
  pub commit_elsewhere :
      (s s' : job.pmi.State) (r : ℕ) (k : Text)
      → job.pmi.kvs_commit s r job.launcher.kvs_name ≡ (pos 0, s')
      → job.local s r k ≡ none
      → job.common s' k ≡ job.common s k
  pub commit_others :
      (s s' : job.pmi.State) (r q : ℕ) (k : Text)
      → job.pmi.kvs_commit s r job.launcher.kvs_name ≡ (pos 0, s')
      → r ≢ q
      → job.local s' q k ≡ job.local s q k
  pub commit_own :
      (s s' : job.pmi.State) (r : ℕ) (k v : Text)
      → job.pmi.kvs_commit s r job.launcher.kvs_name ≡ (pos 0, s')
      → job.local s' r k ≡ some v
      → job.local s r k ≡ some v
  pub barrier_local :
      (s s' : job.pmi.State) (r q : ℕ) (k : Text)
      → job.pmi.barrier s r ≡ (pos 0, s')
      → job.local s' q k ≡ job.local s q k
  pub barrier_common :
      (s s' : job.pmi.State) (r : ℕ) (k : Text)
      → job.pmi.barrier s r ≡ (pos 0, s')
      → job.common s' k ≡ job.common s k
  pub get_value :
      (s : job.pmi.State) (r : ℕ) (k v : Text)
      → job.common s k ≡ some v
      → length v < 1024
      → job.pmi.kvs_get s r job.launcher.kvs_name k ≡ (pos 0, v)
  pub few : job.size ≤ int_bound
  pub short_ip : (r : ℕ) → length (job.ip r) < 1024
  pub short_port : job.port + job.range ≤ power 7
  pub some_ports : 0 < job.range

-- A process is one call further.
abbrev pub advance : (ℕ → ℕ) → ℕ → ℕ → ℕ
advance progress r q = if r == q then suc (progress q) else progress q

-- The states of a running job. `progress` counts each process's calls: the put of its address, the put of its port, the commit, and
-- the barrier, which no process leaves before all have committed.
pub data Running (job : Job) : job.pmi.State → (ℕ → ℕ) → Type 0 where
  started :
      (s : job.pmi.State) → ((r : ℕ) (k : Text) → job.local s r k ≡ none) → Running job s (λ r. 0)
  sets_ip :
      (s s' : job.pmi.State) (progress : ℕ → ℕ) (r : ℕ)
      → Running job s progress
      → r < job.size
      → progress r ≡ 0
      → set_ip job.pmi job.launcher s r (job.ip r) ≡ ok s'
      → Running job s' (advance progress r)
  sets_port :
      (s s' : job.pmi.State) (progress : ℕ → ℕ) (r : ℕ)
      → Running job s progress
      → r < job.size
      → progress r ≡ 1
      → set_port job.pmi job.launcher s r job.port job.range ≡ ok s'
      → Running job s' (advance progress r)
  commits :
      (s s' : job.pmi.State) (progress : ℕ → ℕ) (r : ℕ)
      → Running job s progress
      → r < job.size
      → progress r ≡ 2
      → commit job.pmi job.launcher s r ≡ ok s'
      → Running job s' (advance progress r)
  leaves :
      (s s' : job.pmi.State) (progress : ℕ → ℕ) (r : ℕ)
      → Running job s progress
      → r < job.size
      → progress r ≡ 3
      → ((q : ℕ) → q < job.size → 3 ≤ progress q)
      → barrier job.pmi s r ≡ ok s'
      → Running job s' (advance progress r)

-- What process `r` has published after `m` of its calls.
pub record Published (job : Job) (s : job.pmi.State) (r m : ℕ) : Type 0 where
  pub own :
      (k v : Text)
      → job.local s r k ≡ some v
      → ((k ≡ ip_at r) × (v ≡ job.ip r)) ⊎ ((k ≡ port_at r) × (v ≡ port_of job r))
  pub ip_put : 1 ≤ m → m ≤ 2 → job.local s r (ip_at r) ≡ some (job.ip r)
  pub port_put : m ≡ 2 → job.local s r (port_at r) ≡ some (port_of job r)
  pub ip_common : 3 ≤ m → job.common s (ip_at r) ≡ some (job.ip r)
  pub port_common : 3 ≤ m → job.common s (port_at r) ≡ some (port_of job r)
