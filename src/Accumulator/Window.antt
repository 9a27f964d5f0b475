-- ===== src/Accumulator/Window.antt =====
-- The slots and the memory of multievent `j`: on a ring of `slots` multievents of `k` events each, it
-- is block `j % slots` of the metadata, and its events stand one behind the other in the data.
use lseb.Prelude.{
  ℕ, ◌+◌, ◌-◌, ◌*◌, ◌%◌, ◌≤◌, ◌<◌, ◌≡◌, arith, ap, ◌∙◌, block-mod, mod_once, quarter_word,
  int_bound, ltb, false, le→ltb_false, if◌then◌else◌,
}
use mathlib.Core.Path.{ap₂}
use native.Mathlib.Nat.{mod-add-mod, mod-lt, mul-le-mul_left, mul-suc}
use lseb.DataFormat.{EventMetaData, Iovec, Memory, event_header_size}
use lseb.Generator.Layout.{total, total_mono}
use lseb.Range.{Range, span}
use lseb.Range.Orbit.{slots, orbit, IsSub}

-- The metadata that the generator laid out, over a ring of whole multievents.
pub record IsTable (metadata : Memory EventMetaData) (lo hi dlo dhi k count : ℕ) : Type 0 where
  pub some_events : 0 < k
  pub some_multievents : 0 < count
  pub whole : hi - lo ≡ k * count
  pub order : lo < hi
  pub small : hi < quarter_word
  pub few : hi - lo < int_bound
  pub data_order : dlo < dhi
  pub data_small : dhi < quarter_word
  pub bytes : total metadata lo (hi - lo) ≤ dhi - dlo
  pub offset_at : (j : ℕ) → j < hi - lo → (metadata (lo + j)).offset ≡ total metadata lo j
  pub long : (j : ℕ) → j < hi - lo → event_header_size ≤ (metadata (lo + j)).length

module _ (metadata : Memory EventMetaData) (lo dlo k count j : ℕ) where
  -- The place of the first event of multievent `j`, counted from the ring's begin.
  abbrev pub first : ℕ
  first = k * (j % count)

  -- The memory of multievent `j`.
  unfoldable pub extent : Iovec
  extent = record {
    base = dlo + total metadata lo first;
    len = total metadata lo (first + k) - total metadata lo first;
  }

-- The slots from the first event of multievent `j` to that of the next one.
abbrev pub window : ℕ → ℕ → ℕ → ℕ → Range
window lo hi k j = record { begin = lo + k * j % (hi - lo); end = lo + (k * j + k) % (hi - lo) }

module _ {metadata : Memory EventMetaData} {lo hi dlo dhi k count : ℕ}
    (t : IsTable metadata lo hi dlo dhi k count) (j : ℕ) where
  abbrev pub s : ℕ
  s = first metadata lo dlo k count j

  pub block_in : s + k ≤ hi - lo
  block_in =
      omega (arith, mul-le-mul_left k (mod-lt j t.some_multievents), mul-suc k (j % count), t.whole)

  -- The slot of event `i` of multievent `j`.
  pub slot-eq : (i : ℕ) → i < k → (k * j + i) % (hi - lo) ≡ s + i
  slot-eq i h = ap (λ m. (k * j + i) % m) t.whole ∙ block-mod k j count i h t.some_multievents

  pub slot_first : k * j % (hi - lo) ≡ s
  slot_first = ap (λ m. m % (hi - lo)) (omega arith) ∙ slot-eq 0 t.some_events ∙ omega arith

  pub slot_next : (k * j + k) % (hi - lo) ≡ (if ltb (s + k) (hi - lo) then s + k else 0)
  slot_next =
      ground
        (arith, block_in, slot_first, mod-add-mod (k * j) (hi - lo) k, mod_once (s + k) (hi - lo))

  abbrev pub range : Range
  range = record { begin = lo; end = hi }

  abbrev pub w : Range
  w = window lo hi k j

  pub window-IsSub : IsSub w range
  window-IsSub = omega (arith, slot_first, slot_next, block_in, t.some_events, t.order)

  -- They are `k` slots in a row.
  pub slots-window : slots w range ≡ orbit range k (lo + s)
  slots-window = ap₂ (λ n p. orbit range n p) count_eq (ap (λ m. lo + m) slot_first)
    where
      count_eq : (if ltb w.begin w.end then w.end - w.begin else span range + w.end - w.begin) ≡ k
      count_eq = ground (arith, slot_first, slot_next, block_in, t.some_events, t.order)

  total-place :
      (i : ℕ) → s + i < hi - lo → (metadata (lo + (s + i))).offset ≡ total metadata lo (s + i)
  total-place i h = t.offset_at (s + i) h

  pub offset_first : (metadata w.begin).offset ≡ total metadata lo s
  offset_first =
      ap (λ m. (metadata (lo + m)).offset) slot_first
      ∙ t.offset_at s (omega (arith, block_in, t.some_events))

  -- No event of the multievent stands before its first one.
  pub no_wrap :
      (q : ℕ)
      → lo + s ≤ q
      → q < lo + s + k
      → ltb (metadata q).offset (metadata w.begin).offset ≡ false
  no_wrap q h g = le→ltb_false _ _ (
      rw (offset_first, at_place, t.offset_at (q - lo) (omega (arith, block_in)))
        (total_mono metadata lo s (q - lo) (omega arith)))
    where
      at_place : q ≡ lo + (q - lo)
      at_place = omega arith
