-- ===== src/Hydra/Progress.antt =====
-- Each call keeps what the processes have published.
use mathlib.Core.Option.{some-injective}
use mathlib.Core.List.{List-discrete}
use lseb.Prelude.{
  ℕ, suc, ◌≡◌, ◌≢◌, refl, sym, ap, ◌∙◌, arith, none, some, Option-cases, pos, ◌⊎◌, inl, inr,
  ℕ_discrete, ne→==_false, eq→==,
}
use lseb.Hydra.Decimal.{Text}
use lseb.Hydra.{barrier, commit, set_ip, set_port, get_rank, check_status, ip_key, port_key}
use lseb.Hydra.Exchange.{
  Job, IsJob, ip_at, port_at, port_of, advance, Running, started, sets_ip, sets_port, commits,
  leaves, Published,
}
use lseb.Hydra.Calls.{
  ip_at-injective, port_at-injective, ip_at-ne-port_at, checked-ok, set_value-ok, port_text-fits,
}

module _ (job : Job) (laws : IsJob job) where
  -- A call that changes neither a process's own pairs nor its common ones.
  frame :
      (s s' : job.pmi.State) (r m : ℕ)
      → ((k : Text) → job.local s' r k ≡ job.local s r k)
      → job.common s' (ip_at r) ≡ job.common s (ip_at r)
      → job.common s' (port_at r) ≡ job.common s (port_at r)
      → Published job s r m
      → Published job s' r m
  frame s s' r m same ip port p = record {
    own = λ k v e. p.own k v (sym (same k) ∙ e);
    ip_put = λ h k. same (ip_at r) ∙ p.ip_put h k;
    port_put = λ h. same (port_at r) ∙ p.port_put h;
    ip_common = λ h. ip ∙ p.ip_common h;
    port_common = λ h. port ∙ p.port_common h;
  }

  module _ (s s' : job.pmi.State) (r : ℕ) (k v : Text)
      (put : job.pmi.kvs_put s r job.launcher.kvs_name k v ≡ (pos 0, s')) where
    put-other : (q m : ℕ) → r ≢ q → Published job s q m → Published job s' q m
    put-other q m h p =
        frame s s' q m (λ j. laws.put_elsewhere s s' r q k v j put (inl h))
          (laws.put_common s s' r k v (ip_at q) put) (laws.put_common s s' r k v (port_at q) put) p

    put-own :
        (m : ℕ)
        → Published job s r m
        → ((k ≡ ip_at r) × (v ≡ job.ip r)) ⊎ ((k ≡ port_at r) × (v ≡ port_of job r))
        → (j w : Text) → job.local s' r j ≡ some w
        → ((j ≡ ip_at r) × (w ≡ job.ip r)) ⊎ ((j ≡ port_at r) × (w ≡ port_of job r))
    put-own m p new j w e = elim (List-discrete ℕ_discrete k j) [
      | yes same ↦
          let f : w ≡ v =
            some-injective _ _
              (sym e ∙ ap (job.local s' r) (sym same) ∙ laws.put_here s s' r k v put) in
          elim new [
            | inl (a, b) ↦ inl (sym same ∙ a, f ∙ b)
            | inr (a, b) ↦ inr (sym same ∙ a, f ∙ b)
          ]
      | no other ↦ p.own j w (sym (laws.put_elsewhere s s' r r k v j put (inr other)) ∙ e)
    ]

    put_ip-Published : k ≡ ip_at r → v ≡ job.ip r → Published job s r 0 → Published job s' r 1
    put_ip-Published a b p = record {
      own = put-own 0 p (inl (a, b));
      ip_put = λ h g. ap (job.local s' r) (sym a) ∙ laws.put_here s s' r k v put ∙ ap some b;
      port_put = λ h. absurd (omega arith);
      ip_common = λ h. absurd (omega arith);
      port_common = λ h. absurd (omega arith);
    }

    put_port-Published :
        k ≡ port_at r → v ≡ port_of job r → Published job s r 1 → Published job s' r 2
    put_port-Published a b p = record {
      own = put-own 1 p (inr (a, b));
      ip_put = λ h g.
          laws.put_elsewhere s s' r r k v (ip_at r) put
            (inr (λ e. ip_at-ne-port_at r r (sym e ∙ a)))
          ∙ p.ip_put (omega arith) (omega arith);
      port_put = λ h. ap (job.local s' r) (sym a) ∙ laws.put_here s s' r k v put ∙ ap some b;
      ip_common = λ h. absurd (omega arith);
      port_common = λ h. absurd (omega arith);
    }

  module _ (s s' : job.pmi.State) (r : ℕ)
      (done : job.pmi.kvs_commit s r job.launcher.kvs_name ≡ (pos 0, s')) where
    commit-here : Published job s r 2 → Published job s' r 3
    commit-here p = record {
      own = λ k v e. p.own k v (laws.commit_own s s' r k v done e);
      ip_put = λ h g. absurd (omega arith);
      port_put = λ h. absurd (omega arith);
      ip_common = λ h.
          laws.commit_here s s' r (ip_at r) (job.ip r) done (p.ip_put (omega arith) (omega arith));
      port_common = λ h. laws.commit_here s s' r (port_at r) (port_of job r) done (p.port_put refl);
    }

    -- The pairs of one process are under other keys than those of another.
    foreign_ip : (q m : ℕ) → r ≢ q → Published job s r m → job.local s r (ip_at q) ≡ none
    foreign_ip q m h p = elim (Option-cases (job.local s r (ip_at q))) [
      | inl e ↦ e
      | inr (v, e) ↦ elim (p.own (ip_at q) v e) [
        | inl (a, b) ↦ absurd (h (sym (ip_at-injective q r a)))
        | inr (a, b) ↦ absurd (ip_at-ne-port_at q r a)
      ]
    ]

    foreign_port : (q m : ℕ) → r ≢ q → Published job s r m → job.local s r (port_at q) ≡ none
    foreign_port q m h p = elim (Option-cases (job.local s r (port_at q))) [
      | inl e ↦ e
      | inr (v, e) ↦ elim (p.own (port_at q) v e) [
        | inl (a, b) ↦ absurd (ip_at-ne-port_at r q (sym a))
        | inr (a, b) ↦ absurd (h (sym (port_at-injective q r a)))
      ]
    ]

    commit-other :
        (q m n : ℕ) → r ≢ q → Published job s r m → Published job s q n → Published job s' q n
    commit-other q m n h own p =
        frame s s' q n (λ k. laws.commit_others s s' r q k done h)
          (laws.commit_elsewhere s s' r (ip_at q) done (foreign_ip q m h own))
          (laws.commit_elsewhere s s' r (port_at q) done (foreign_port q m h own)) p

  leave : (s : job.pmi.State) (r : ℕ) → Published job s r 3 → Published job s r 4
  leave s r p = record {
    own = p.own;
    ip_put = λ h g. absurd (omega arith);
    port_put = λ h. absurd (omega arith);
    ip_common = λ h. p.ip_common (omega arith);
    port_common = λ h. p.port_common (omega arith);
  }

advanced :
    (P : ℕ → ℕ → Type 0) (progress : ℕ → ℕ) (r q : ℕ)
    → P r (suc (progress r))
    → ((r ≢ q) → P q (progress q))
    → P q (advance progress r q)
advanced P progress r q here there = elim (ℕ_discrete r q) [
  | yes same ↦ rw (eq→== r q same) (rw same at here)
  | no other ↦ rw (ne→==_false r q other) (there other)
]

-- Whatever the order of the processes' calls, each has published what its own calls say.
pub Running-Published :
    (job : Job) (s : job.pmi.State) (progress : ℕ → ℕ)
    → IsJob job
    → Running job s progress
    → (q : ℕ) → Published job s q (progress q)
unfolding set_ip set_port commit barrier get_rank check_status
Running-Published job s progress laws (started s' fresh) q = record {
  own = λ k v e. cc (fresh q k, e);
  ip_put = λ h g. absurd (omega arith);
  port_put = λ h. absurd (omega arith);
  ip_common = λ h. absurd (omega arith);
  port_common = λ h. absurd (omega arith);
}
Running-Published job s progress laws (sets_ip old s' before r run bound z e) q =
    let put = set_value-ok job laws old s' r ip_key (job.ip r) (omega arith) bound e in
    let was = Running-Published job old before laws run in
    advanced (Published job s') before r q
      (rw z
        (put_ip-Published job laws old s' r (ip_at r) (job.ip r) put refl refl (rw z at (was r))))
      (λ other. put-other job laws old s' r (ip_at r) (job.ip r) put q (before q) other (was q))
Running-Published job s progress laws (sets_port old s' before r run bound z e) q =
    let put =
      set_value-ok job laws old s' r port_key (port_of job r) (omega arith) bound
        (rw (laws.rank_of old r, port_text-fits job laws r) at e) in
    let was = Running-Published job old before laws run in
    advanced (Published job s') before r q
      (rw z (
        put_port-Published job laws old s' r (port_at r) (port_of job r) put refl refl
          (rw z at (was r))))
      (λ other.
        put-other job laws old s' r (port_at r) (port_of job r) put q (before q) other (was q))
Running-Published job s progress laws (commits old s' before r run bound z e) q =
    let done = checked-ok (job.pmi.kvs_commit old r job.launcher.kvs_name) e in
    let was = Running-Published job old before laws run in
    advanced (Published job s') before r q
      (rw z (commit-here job laws old s' r done (rw z at (was r))))
      (λ other. commit-other job laws old s' r done q (before r) (before q) other (was r) (was q))
Running-Published job s progress laws (leaves old s' before r run bound z all e) q =
    let done = checked-ok (job.pmi.barrier old r) e in
    let keep = λ (n m : ℕ).
      frame job laws old s' n m (λ k. laws.barrier_local old s' r n k done)
        (laws.barrier_common old s' r (ip_at n) done)
        (laws.barrier_common old s' r (port_at n) done) in
    let was = Running-Published job old before laws run in
    advanced (Published job s') before r q (rw z (leave job laws s' r (keep r 3 (rw z at (was r)))))
      (λ other. keep q (before q) (was q))
