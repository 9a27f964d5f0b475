-- ===== src/Prelude/Words.antt =====
-- `size_t` arithmetic, with its wrap-around, and the `%` of a ring.
use Prim.Native.Nat.{ℕ, ◌+◌, ◌-◌, ◌*◌, ◌%◌, ◌^◌}

abbrev pub word : ℕ
word = 2 ^ 64

-- The largest address or size that a signed 64-bit distance can span.
abbrev pub half_word : ℕ
half_word = 2 ^ 63

-- Pointers are assumed below this, so that the sum of two distances is again a signed number.
abbrev pub quarter_word : ℕ
quarter_word = 2 ^ 62

abbrev pub add_size : ℕ → ℕ → ℕ
add_size a b = (a + b) % word

-- `a - b` of operands below 2 ^ 64; a pointer distance that is converted to `size_t` is one too.
abbrev pub sub_size : ℕ → ℕ → ℕ
sub_size a b = (a + word - b) % word

abbrev pub mul_size : ℕ → ℕ → ℕ
mul_size a b = (a * b) % word

-- The bound of a non-negative `int`.
abbrev pub int_bound : ℕ
int_bound = 2 ^ 31
