-- ===== src/Range/Travel.antt =====
-- Going forward on a ring, measuring the way and going back.
use lseb.Prelude.{
  ℕ, ◌+◌, ◌-◌, ◌≤◌, ◌<◌, ◌≡◌, arith, mod_once, ltb, ok, pos, sub_ℕ, if◌then◌else◌, dec_lt, lt→ltb,
  le→ltb_false,
}
use native.Mathlib.Nat.{mod-eq_of_lt}
use lseb.Range.{Range, span, at_offset, advance_in_range, distance_in_range, validate_subrange}
use lseb.Range.Positions.{IsRing}

-- What `n` slots after `p` is, `n` at most the number of slots.
abbrev pub forward : Range → ℕ → ℕ → ℕ
forward range p n = if ltb (p + n) range.end then p + n else p + n - span range

module _ {range : Range} (v : IsRing range) (p n : ℕ) (from : range.begin ≤ p)
    (below : p < range.end) where
  advance-forward : n ≤ span range → advance_in_range p (pos n) range ≡ ok (forward range p n)
  unfolding advance_in_range at_offset
  advance-forward h = ground (arith, mod_once (p - range.begin + n) (span range))

  distance-forward :
      n < span range
      → distance_in_range (record { begin = p; end = forward range p n }) range ≡ ok n
  unfolding distance_in_range validate_subrange
  distance-forward h = ground arith

  -- The way back does not pass the range's begin,
  back_near : p + n < range.end → n < span range → advance_in_range (p + n) (sub_ℕ 0 n) range ≡ ok p
  unfolding advance_in_range at_offset
  back_near near h =
      ground (arith, mod-eq_of_lt {n = p - range.begin} {m = span range} (omega arith))

  -- or it does.
  back_far :
      range.end ≤ p + n
      → n < span range
      → advance_in_range (p + n - span range) (sub_ℕ 0 n) range ≡ ok p
  unfolding advance_in_range at_offset
  back_far far h = ground (arith, mod-eq_of_lt {n = range.end - p} {m = span range} (omega arith))

  advance-back : n < span range → advance_in_range (forward range p n) (sub_ℕ 0 n) range ≡ ok p
  advance-back h = elim (dec_lt (p + n) range.end) [
    | yes near ↦ rw (lt→ltb _ _ near) (back_near near h)
    | no far ↦ rw (le→ltb_false (p + n) range.end (omega arith)) (back_far (omega arith) h)
  ]

-- On a ring below 2 ^ 62, from a slot of it, `advance_in_range` by `n` slots, fewer than there are,
-- gives a slot of the ring; `distance_in_range` from the start to it is `n`, and advancing it by
-- `-n` gives the start again.
pub travel :
    {range : Range} (v : IsRing range) (p n : ℕ)
    → range.begin ≤ p
    → p < range.end
    → n < span range
    → (q : ℕ) × (advance_in_range p (pos n) range ≡ ok q)
      × (range.begin ≤ q)
      × (q < range.end)
      × (distance_in_range (record { begin = p; end = q }) range ≡ ok n)
      × (advance_in_range q (sub_ℕ 0 n) range ≡ ok p)
travel {range} v p n h k m = (
  forward range p n,
  advance-forward v p n h k (omega arith),
  ground arith,
  ground arith,
  distance-forward v p n h k m,
  advance-back v p n h k m,
)
