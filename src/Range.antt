-- ===== src/Range.antt =====
-- common/range.h: a range of slots, and sub-ranges of it that may go round its end.
-- A pointer is its index in units of `T`. What a function object does with the slot at a pointer is
-- a function of the pointer.
pub mod Positions
pub mod Orbit
pub mod Travel
use lseb.Prelude.{
  ℕ, zero, suc, ◌+◌, ◌-◌, Bool, Result, ok, err, undefined, assert, ◌>>=◌, ◌>>◌, ◌&&◌, ltb, leb,
  ◌==◌, if◌then◌else◌, ℤ, pos, negsuc, ◌+ℤ◌, rem, pos_part, half_word, sub_size,
}

pub record Range : Type 0 where
  pub begin : ℕ
  pub end : ℕ

unfoldable pub validate_subrange : Range → Range → Result (Unit {0})
validate_subrange sub range = do
  assert (leb range.begin range.end)
  assert (leb range.begin sub.begin && leb sub.begin range.end)
  assert (leb range.begin sub.end && leb sub.end range.end)

abbrev pub span : Range → ℕ
span range = range.end - range.begin

-- The signed distance `d` of the sub-range is below 0 exactly if its end stands before its begin.
unfoldable pub distance_in_range : Range → Range → Result ℕ
distance_in_range sub range = do
  validate_subrange sub range
  ok (
      if ltb sub.end sub.begin
      then sub_size (span range + sub.end) sub.begin
      else sub.end - sub.begin)

-- `begin + offset + (offset < 0 ? size : 0)`
unfoldable pub at_offset : Range → ℤ → ℕ
at_offset range (pos n) = range.begin + n
at_offset range (negsuc n) = range.begin + span range - suc n

-- A signed sum past `ssize_t` is undefined.
unfoldable pub advance_in_range : ℕ → ℤ → Range → Result ℕ
advance_in_range current advance range = do
  assert (leb range.begin current && ltb current range.end)
  let sum = pos (current - range.begin) +ℤ advance
  if ltb (pos_part sum) half_word
      then ok (at_offset range (rem sum (span range)))
      else err undefined

-- `std::find_if(p, p + n, op)`
unfoldable pub find_if : ℕ → ℕ → (ℕ → Bool) → ℕ
find_if zero p op = p
find_if (suc n) p op = if op p then p else find_if n (p + 1) op

-- `std::accumulate(p, p + n, init, op)`
unfoldable pub accumulate {ℓ} : {A : Type ℓ} → ℕ → ℕ → A → (A → ℕ → A) → A
accumulate zero p init op = init
accumulate (suc n) p init op = accumulate n (p + 1) (op init p) op

unfoldable pub find_in_range : Range → Range → (ℕ → Bool) → Result ℕ
find_in_range sub range op = do
  validate_subrange sub range
  let it = find_if (range.end - sub.begin) sub.begin op
  ok (
      if ltb sub.begin sub.end
      then find_if (sub.end - sub.begin) sub.begin op
      else if it == range.end
      then find_if (sub.end - range.begin) range.begin op
      else it)

unfoldable pub accumulate_in_range {ℓ} : {A : Type ℓ} → Range → Range → A → (A → ℕ → A) → Result A
accumulate_in_range sub range init op = do
  validate_subrange sub range
  ok (
      if ltb sub.begin sub.end
      then accumulate (sub.end - sub.begin) sub.begin init op
      else accumulate (sub.end - range.begin) range.begin
          (accumulate (range.end - sub.begin) sub.begin init op) op)
