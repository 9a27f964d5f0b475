-- ===== src/Hydra/Liveness.antt =====
-- The exchange does not stop before every process has left the barrier, if PMI's calls succeed.
use lseb.Prelude.{ℕ, zero, suc, ◌≤◌, ◌<◌, ◌≡◌, arith, pos, ◌⊎◌, inl, inr, dec_lt, ℕ_discrete}
use lseb.Hydra.Decimal.{Text}
use lseb.Hydra.{
  barrier, commit, set_value, set_ip, set_port, get_rank, check_status, ip_key, port_key,
}
use lseb.Hydra.Exchange.{
  Job, IsJob, ip_at, port_at, port_of, advance, Running, started, sets_ip, sets_port, commits,
  leaves,
}
use lseb.Hydra.Calls.{key_at-fits, port_text-fits}

-- The calls that change PMI's state have the status of success.
pub record Succeeds (job : Job) : Type 0 where
  pub puts :
      (s : job.pmi.State) (r : ℕ) (k v : Text)
      → (job.pmi.kvs_put s r job.launcher.kvs_name k v).0 ≡ pos 0
  pub commits :
      (s : job.pmi.State) (r : ℕ) → (job.pmi.kvs_commit s r job.launcher.kvs_name).0 ≡ pos 0
  pub barriers : (s : job.pmi.State) (r : ℕ) → (job.pmi.barrier s r).0 ≡ pos 0

-- The first numbers below `n`, by a bound on their values.
below : (f : ℕ → ℕ) (b n : ℕ) → ((r : ℕ) × (r < n) × (f r < b)) ⊎ ((r : ℕ) → r < n → b ≤ f r)
below f b zero = inr (λ r h. absurd (omega arith))
below f b (suc n) = elim (dec_lt (f n) b) [
  | yes h ↦ inl (n, omega arith, h)
  | no h ↦ elim (below f b n) [
    | inl (r, k, l) ↦ inl (r, omega arith, l)
    | inr all ↦
        inr
          (λ r k. elim (ℕ_discrete r n) [ yes e ↦ rw e (omega arith) | no d ↦ all r (omega arith) ])
  ]
]

Running-bound :
    (job : Job) (s : job.pmi.State) (progress : ℕ → ℕ) (q : ℕ)
    → Running job s progress
    → progress q ≤ 4
Running-bound job s progress q (started s' fresh) = omega arith
Running-bound job s progress q (sets_ip old s' before n run bound z e) =
    ground (arith, Running-bound job old before q run)
Running-bound job s progress q (sets_port old s' before n run bound z e) =
    ground (arith, Running-bound job old before q run)
Running-bound job s progress q (commits old s' before n run bound z e) =
    ground (arith, Running-bound job old before q run)
Running-bound job s progress q (leaves old s' before n run bound z all e) =
    ground (arith, Running-bound job old before q run)

module _ (job : Job) (laws : IsJob job) (live : Succeeds job) (s : job.pmi.State) (progress : ℕ → ℕ)
    (run : Running job s progress) where
  -- Process `r` makes its next call, and the job runs on.
  abbrev Next : ℕ → Type 0
  Next r = (s' : job.pmi.State) × Running job s' (advance progress r)

  early_call : (r : ℕ) → r < job.size → progress r < 3 → Next r
  unfolding set_ip set_port commit set_value get_rank check_status
  early_call r h k = elim (ℕ_discrete (progress r) 0) [
    | yes z ↦ (
      (job.pmi.kvs_put s r job.launcher.kvs_name (ip_at r) (job.ip r)).1,
      sets_ip s _ progress r run h z (
          rw (
            laws.rank_of s r,
            key_at-fits job laws ip_key r (omega arith) h,
            live.puts s r (ip_at r) (job.ip r),
          )),
    )
    | no a ↦ elim (ℕ_discrete (progress r) 1) [
      | yes z ↦ (
        (job.pmi.kvs_put s r job.launcher.kvs_name (port_at r) (port_of job r)).1,
        sets_port s _ progress r run h z (
            rw (
              laws.rank_of s r,
              port_text-fits job laws r,
              key_at-fits job laws port_key r (omega arith) h,
              live.puts s r (port_at r) (port_of job r),
            )),
      )
      | no b ↦ (
        (job.pmi.kvs_commit s r job.launcher.kvs_name).1,
        commits s _ progress r run h (omega arith) (rw (live.commits s r)),
      )
    ]
  ]

  last_call :
      (r : ℕ) → r < job.size → progress r ≡ 3 → ((q : ℕ) → q < job.size → 3 ≤ progress q) → Next r
  unfolding barrier check_status
  last_call r h z all =
      ((job.pmi.barrier s r).1, leaves s _ progress r run h z all (rw (live.barriers s r)))

-- The first `n` processes have left the barrier.
abbrev pub HaveLeft : (ℕ → ℕ) → ℕ → Type 0
HaveLeft progress zero = Unit {0}
HaveLeft progress (suc n) = (progress n ≡ 4) × HaveLeft progress n

have_left : (progress : ℕ → ℕ) (n : ℕ) → ((r : ℕ) → r < n → progress r ≡ 4) → HaveLeft progress n
have_left progress zero h = tt
have_left progress (suc n) h = (h n (omega arith), have_left progress n (λ r k. h r (omega arith)))

-- If the calls of PMI succeed, the exchange never stops early: in each state, either every process
-- has left the barrier, or the next call of some process succeeds and the job runs on.
pub Running-next :
    (job : Job) (s : job.pmi.State) (progress : ℕ → ℕ)
    → IsJob job
    → Succeeds job
    → Running job s progress
    → ((r : ℕ) × (r < job.size) × (s' : job.pmi.State) × Running job s' (advance progress r))
      ⊎ HaveLeft progress job.size
Running-next job s progress laws live run = elim (below progress 3 job.size) [
  | inl (r, h, k) ↦
      let (s', next) = early_call job laws live s progress run r h k in inl (r, h, s', next)
  | inr all ↦ elim (below progress 4 job.size) [
    | inl (r, h, k) ↦
        let (s', next) = last_call job laws live s progress run r h (omega (arith, all r h)) all in
        inl (r, h, s', next)
    | inr done ↦ inr (
        have_left progress job.size
          (λ r h. omega (arith, done r h, Running-bound job s progress r run)))
  ]
]
