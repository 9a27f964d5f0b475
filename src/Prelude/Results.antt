-- ===== src/Prelude/Results.antt =====
-- What a call of the program ends in: a value, a failed `assert`, behaviour that C++ leaves
-- undefined, an exception, or the end of the process by `abort` or `std::terminate`.
use mathlib.Core.Path.{◌≡◌, refl}
use Prim.Native.Nat.{ℕ}
use mathlib.Core.Bool.{Bool, true, false}
use lseb.Prelude.Tests.{ltb, if◌then◌else◌}
use lseb.Prelude.Words.{int_bound}

-- The calls of the verbs library and of libfabric whose failure is an exception.
pub data LibraryCall : Type 0 where
  rdma_getaddrinfo rdma_create_ep rdma_listen rdma_get_request rdma_accept : LibraryCall
  rdma_connect ibv_modify_qp : LibraryCall
  fi_getinfo fi_passive_ep fi_eq_open fi_pep_bind fi_listen fi_endpoint fi_cq_open : LibraryCall
  fi_ep_bind fi_accept fi_connect fi_eq_sread fi_eq_readerr fi_fabric fi_domain : LibraryCall

-- The exceptions of the program, one constructor for each place that throws.
pub data Exception : Type 0 where
  register_failed poll_failed bad_status unknown_key no_credits no_region post_failed : Exception
  duplicate_key data_mismatch log_uninitialized log_already_initialized sink_present : Exception
  sink_missing unknown_level missing_path unexpected_event : Exception
  call_failed : LibraryCall → Exception

pub data Error : Type 0 where
  assert_failed : Error
  undefined : Error
  aborted : Error
  thrown : Exception → Error

pub data Result {ℓ} (A : Type ℓ) : Type ℓ where
  ok : A → Result A
  err : Error → Result A

-- A call whose result the rest of the function needs. What ends the call ends the function.
module _ {ℓ κ} {A : Type ℓ} {B : Type κ} where
  infixl 5 ◌>>=◌
  abbrev pub ◌>>=◌ : (call : Result A) (rest : A → Result B) → Result B
  err why >>= rest = err why
  ok value >>= rest = rest value

  pub >>=-eq-ok :
      (call : Result A) (rest : A → Result B) {b : B}
      → (call >>= rest) ≡ ok b
      → (value : A) × (call ≡ ok value) × (rest value ≡ ok b)
  >>=-eq-ok (err why) rest h = cc
  >>=-eq-ok (ok value) rest h = (value, refl, h)

-- `assert(b)`
abbrev pub assert : Bool → Result (Unit {0})
assert false = err assert_failed
assert true = ok tt

-- A check before the rest of the function.
infixl 5 ◌>>◌
abbrev pub ◌>>◌ {ℓ} : {B : Type ℓ} → Result (Unit {0}) → Result B → Result B
check >> rest = check >>= λ _. rest

-- A value that is stored in an `int` which the program only uses from 0 up. What does not fit, by
-- overflow or by conversion, is outside the model.
abbrev pub to_int : ℕ → Result ℕ
to_int n = if ltb n int_bound then ok n else err undefined

pub ok-injective {ℓ} : {A : Type ℓ} {a b : A} → ok a ≡ ok b → a ≡ b
ok-injective e = cc
