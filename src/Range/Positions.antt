-- ===== src/Range/Positions.antt =====
-- `advance_in_range` and `distance_in_range` on positions that are counters modulo the ring's size.
use native.Mathlib.Nat.{mod-lt, mod-add-mod, mod-eq_of_lt}
use lseb.Prelude.{
  ℕ, ◌+◌, ◌-◌, ◌%◌, ◌≤◌, ◌<◌, ◌≡◌, quarter_word, arith, mod_once, ltb, ok, pos, negsuc,
  if◌then◌else◌,
}
use lseb.Range.{Range, span, at_offset, advance_in_range, distance_in_range, validate_subrange}

-- A range with a slot, below the top of the address space.
pub record IsRing (range : Range) : Type 0 where
  pub some_slots : range.begin < range.end
  pub small : range.end < quarter_word

module _ {range : Range} (v : IsRing range) where
  -- The slot of counter `k`.
  abbrev pub slot : ℕ → ℕ
  slot k = range.begin + k % span range

  pub slot_in : (k : ℕ) → (range.begin ≤ slot k) × (slot k < range.end)
  slot_in k = omega (arith, mod-lt k {m = span range} (omega arith))

  pub advance-slot :
      (k n : ℕ) → n ≤ span range → advance_in_range (slot k) (pos n) range ≡ ok (slot (k + n))
  unfolding advance_in_range at_offset
  advance-slot k n h = ground (arith, slot_in k, mod-add-mod k (span range) n)

  pub retreat-slot : (k : ℕ) → advance_in_range (slot (k + 1)) (negsuc 0) range ≡ ok (slot k)
  unfolding advance_in_range at_offset
  retreat-slot k = ground (
    arith,
    slot_in (k + 1),
    mod-lt k {m = span range} (omega arith),
    step,
    mod-eq_of_lt {n = span range - 1} {m = span range},
    mod-eq_of_lt {n = (k + 1) % span range - 1} {m = span range},
  )
    where
      step :
          (k + 1) % span range
          ≡ (if ltb (k % span range + 1) (span range) then k % span range + 1 else 0)
      step = ground (
        arith,
        mod-add-mod k (span range) 1,
        mod_once (k % span range + 1) (span range),
        mod-lt k {m = span range} (omega arith),
      )

  pub distance-slot :
      (k n : ℕ)
      → n < span range
      → distance_in_range (record { begin = slot k; end = slot (k + n) }) range ≡ ok n
  unfolding distance_in_range validate_subrange
  distance-slot k n h = ground (
    arith,
    slot_in k,
    slot_in (k + n),
    mod-add-mod k (span range) n,
    mod_once (k % span range + n) (span range),
  )
