-- ===== src/Prelude/Modulo.antt =====
-- The remainder by a variable, for positions that go round a ring.
use Prim.Native.Nat.{ℕ, ◌+◌, ◌-◌, ◌*◌, ◌/◌, ◌%◌, ◌≤◌, ◌<◌}
use mathlib.Core.Path.{◌≡◌, ◌∙◌, ap, sym, ◌≡⟨◌⟩◌, ◌∎}
use native.Mathlib.Nat.{
  mod-eq_of_lt, mod-eq-sub-mod, mod-lt, mul-add-mod_self_left, div-add-mod, mul-add, mul_assoc,
  mul-le-mul_left, mul-suc, mod-add-mod,
}
use native.Mathlib.Decide.{dec_lt}
use native.Mathlib.Omega.{arith}
use lseb.Prelude.Tests.{ltb, if◌then◌else◌}

-- Below twice the modulus the remainder takes at most one subtraction.
pub mod_once : (x m : ℕ) → x < m + m → x % m ≡ (if ltb x m then x else x - m)
mod_once x m h = elim (dec_lt x m) [
  | yes p ↦ ground (arith, mod-eq_of_lt p)
  | no p ↦ ground (
    arith,
    mod-eq-sub-mod {n = x} {m = m} (omega arith),
    mod-eq_of_lt {n = x - m} {m = m} (omega arith),
  )
]

block-lt : (k s m i : ℕ) → s < m → i < k → k * s + i < k * m
block-lt k s m i h g = omega (arith, mul-le-mul_left k h, mul-suc k s)

-- Place `i` of block `j`, on a ring of `m` blocks of `k` places.
pub block-mod : (k j m i : ℕ) → i < k → 0 < m → (k * j + i) % (k * m) ≡ k * (j % m) + i
block-mod k j m i hi hm =
    (k * j + i) % (k * m)
    ≡⟨ ap (λ t. (k * t + i) % (k * m)) (sym (div-add-mod j m)) ⟩
      (k * (m * (j / m) + j % m) + i) % (k * m)
    ≡⟨ ap (λ t. t % (k * m)) split ⟩ (k * m * (j / m) + (k * (j % m) + i)) % (k * m)
    ≡⟨ mul-add-mod_self_left (k * m) (j / m) (k * (j % m) + i) ⟩ (k * (j % m) + i) % (k * m)
    ≡⟨ mod-eq_of_lt (block-lt k (j % m) m i (mod-lt j hm) hi) ⟩ k * (j % m) + i ∎
  where
    split : k * (m * (j / m) + j % m) + i ≡ k * m * (j / m) + (k * (j % m) + i)
    split = rw (mul-add k (m * (j / m)) (j % m), mul_assoc k m (j / m)) (omega arith)

-- How far `w` is ahead of `r` on a ring of `m` slots, read off their positions.
pub mod-sub-mod : (r w m : ℕ) → r ≤ w → w < r + m → (m + w % m - r % m) % m ≡ w - r
mod-sub-mod r w m h k = ground (
  arith,
  mod-lt r {m = m} (omega arith),
  mod_once (r % m + (w - r)) m,
  mod_once (m + w % m - r % m) m,
  shift,
)
  where
    shift : w % m ≡ (r % m + (w - r)) % m
    shift = ap (λ t. t % m) (omega arith) ∙ sym (mod-add-mod r m (w - r))
