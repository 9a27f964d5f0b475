-- ===== src/LengthGenerator.antt =====
-- generator/length_generator.cpp: the lengths of the events, drawn at random and cut to bounds. The number that the
-- distribution gives, cut to an integer, is an argument, and so is Boost's `clamp`.
pub mod Lengths
use lseb.Prelude.{
  ℕ, ◌+◌, Bool, Result, ok, err, undefined, assert, ◌>>=◌, ◌>>◌, leb, ltb, ◌==◌, ◌&&◌,
  if◌then◌else◌, add_size, mul_size, word, ℤ, pos, negsuc,
}

pub record LengthGenerator : Type 0 where
  pub max : ℕ
  pub min : ℕ

unfoldable pub create : ℕ → ℕ → ℕ → ℕ → Result LengthGenerator
create mean stddev max min =
    let max' = if max == 0 then add_size mean (mul_size 5 stddev) else max in
    let min' = if stddev == 0 then mean else min in
    (assert (leb min' mean && leb mean max') >> ok (record { max = max'; min = min' }))

-- The conversion of a floating-point number to `size_t`: it is undefined for what does not fit.
unfoldable pub to_size : ℤ → Result ℕ
to_size (pos n) = if ltb n word then ok n else err undefined
to_size (negsuc n) = err undefined

unfoldable pub generate : (ℕ → ℕ → ℕ → ℕ) → LengthGenerator → ℤ → Result ℕ
generate clamp g drawn = do n ← to_size drawn; ok (clamp n g.min g.max)
