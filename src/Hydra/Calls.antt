-- ===== src/Hydra/Calls.antt =====
-- The calls of the launcher on texts that fit its buffers; the keys of different processes are different.
use native.Mathlib.Nat.{mod-lt}
use lseb.Prelude.{
  length-append, ℕ, ◌+◌, ◌%◌, ◌≤◌, ◌<◌, ◌≡◌, ◌≢◌, sym, ap, ◌∙◌, arith, ok, ◌>>◌, >>=-eq-ok,
  ok-injective, lt→ltb, ne→==_false, [], ◌∷◌, ◌++◌, length, drop, ℤ, pos, negsuc, ℕ_discrete,
}
use lseb.Hydra.Decimal.{Text, decimal, number, number-decimal, length-decimal}
use lseb.Hydra.{check_status, key_at, set_value, get_rank, port_text}
use lseb.Hydra.Exchange.{Job, IsJob, ip_at, port_at, port_of}

pub ip_at-injective : (r q : ℕ) → ip_at r ≡ ip_at q → r ≡ q
ip_at-injective r q e = sym (number-decimal r) ∙ ap (λ t. number (drop 3 t)) e ∙ number-decimal q

pub port_at-injective : (r q : ℕ) → port_at r ≡ port_at q → r ≡ q
port_at-injective r q e = sym (number-decimal r) ∙ ap (λ t. number (drop 5 t)) e ∙ number-decimal q

first : Text → ℕ
first [] = 0
first (c ∷ text) = c

pub ip_at-ne-port_at : (r q : ℕ) → ip_at r ≢ port_at q
unfolding first
ip_at-ne-port_at r q e = omega (arith, ap first e)

check_status-ok : (status : ℤ) → check_status status ≡ ok tt → status ≡ pos 0
unfolding check_status
check_status-ok (negsuc n) e = cc
check_status-ok (pos n) e = elim (ℕ_discrete n 0) [ yes z ↦ ap pos z | no z ↦ ground (arith, e) ]

pair-eq :
    {A : Type 0} (call : ℤ × A) {status : ℤ} {b : A}
    → call.0 ≡ status
    → call.1 ≡ b
    → call ≡ (status, b)
pair-eq call p q = rw (← p, ← q)

-- A checked call that gives a value had the status of success.
pub checked-ok :
    {A : Type 0} (call : ℤ × A) {b : A}
    → (check_status call.0 >> ok call.1) ≡ ok b
    → call ≡ (pos 0, b)
checked-ok call e =
    let (u, f, g) = >>=-eq-ok (check_status call.0) (λ _. ok call.1) e in
    pair-eq call (check_status-ok call.0 f) (ok-injective g)

module _ (job : Job) (laws : IsJob job) where
  pub key_at-fits :
      (key : Text) (r : ℕ)
      → length key < 8
      → r < job.size
      → key_at key r ≡ ok (key ++ b'-' ∷ decimal r)
  unfolding key_at
  key_at-fits key r h k = rw (
      lt→ltb (length (key ++ b'-' ∷ decimal r)) 512 (
        omega (
          arith,
          h,
          length-append key (b'-' ∷ decimal r),
          length-decimal 9 r (omega (arith, laws.few, k)),
        )))

  pub set_value-ok :
      (s s' : job.pmi.State) (r : ℕ) (key v : Text)
      → length key < 8
      → r < job.size
      → set_value job.pmi job.launcher s r key v ≡ ok s'
      → job.pmi.kvs_put s r job.launcher.kvs_name (key ++ b'-' ∷ decimal r) v ≡ (pos 0, s')
  unfolding set_value get_rank check_status
  set_value-ok s s' r key v h k e =
      checked-ok (job.pmi.kvs_put s r job.launcher.kvs_name (key ++ b'-' ∷ decimal r) v)
        (rw (laws.rank_of s r, key_at-fits key r h k) at e)

  pub length-port_of : (r : ℕ) → length (port_of job r) ≤ 7
  length-port_of r =
      length-decimal 6 (job.port + r % job.range)
        (omega (arith, laws.short_port, mod-lt r laws.some_ports))

  pub port_text-fits : (r : ℕ) → port_text job.port job.range r ≡ ok (port_of job r)
  unfolding port_text
  port_text-fits r = rw (
    ne→==_false job.range 0 (omega (arith, laws.some_ports)),
    lt→ltb (length (port_of job r)) 8 (omega (arith, length-port_of r)),
  )
