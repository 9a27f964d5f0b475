-- ===== src/Accumulator/Disjoint.antt =====
-- The memory of the multievents that are out: pieces of the data that do not overlap.
use native.Mathlib.Nat.{mul-add, mul-le-mul_left, mul-suc, mod_self, lt_of_mul-lt-mul_left}
use lseb.Prelude.{
  ℕ, suc, ◌+◌, ◌-◌, ◌%◌, ◌≤◌, ◌<◌, ◌≡◌, ◌≢◌, ◌⊎◌, inl, inr, ap, arith, Bool, List, length, dec_lt,
  mod-sub-mod,
}
use lseb.DataFormat.{EventMetaData, Iovec, Memory}
use lseb.Generator.Layout.{total, total_mono}
use lseb.Controller.{Controller}
use lseb.Accumulator.Window.{IsTable, extent, first, block_in}
use lseb.Accumulator.Invariant.{Runs}

-- Two pieces of memory that share no byte.
abbrev pub Disjoint : Iovec → Iovec → Type 0
Disjoint v w = (v.base + v.len ≤ w.base) ⊎ (w.base + w.len ≤ v.base)

-- Fewer than `m` steps round a ring of `m` places do not come back.
mod-ne : (i j m : ℕ) → i < j → j < i + m → i % m ≢ j % m
mod-ne i j m h g e = absurd (
    omega (
      arith,
      mod-sub-mod i j m (omega arith) g,
      mod_self m,
      ap (λ r. (m + j % m - r) % m) e,
      again,
    ))
  where
    again : (m + j % m - j % m) % m ≡ m % m
    again = ap (λ r. r % m) (omega arith)

module _ {metadata : Memory EventMetaData} {lo hi dlo dhi k count : ℕ}
    (t : IsTable metadata lo hi dlo dhi k count) where
  abbrev piece : ℕ → Iovec
  piece j = extent metadata lo dlo k count j

  -- A multievent's memory holds at least a header, and lies in the data.
  pub extent_in :
      (j : ℕ)
      → (dlo ≤ (piece j).base) × (0 < (piece j).len) × ((piece j).base + (piece j).len ≤ dhi)
  unfolding extent total
  extent_in j =
      let s = first metadata lo dlo k count j in
      omega (
        arith,
        block_in t j,
        total_mono metadata lo (suc s) (s + k) (omega (arith, t.some_events)),
        total_mono metadata lo (s + k) (hi - lo) (block_in t j),
        t.long s (omega (arith, block_in t j, t.some_events)),
        t.bytes,
        t.some_events,
        t.data_order,
      )

  -- Blocks that stand apart on the ring have their events apart in the data.
  extent_apart : (i j : ℕ) → i % count < j % count → (piece i).base + (piece i).len ≤ (piece j).base
  unfolding extent
  extent_apart i j h =
      let s = first metadata lo dlo k count i in
      let u = first metadata lo dlo k count j in
      omega (
        arith,
        total_mono metadata lo s (s + k) (omega arith),
        total_mono metadata lo (s + k) u
            (omega (arith, mul-le-mul_left k h, mul-suc k (i % count))),
      )

  -- The memory of multievents that are fewer than `count` numbers apart does not overlap.
  pub extent-Disjoint : (i j : ℕ) → i < j → j < i + count → Disjoint (piece i) (piece j)
  extent-Disjoint i j h g = elim (dec_lt (i % count) (j % count)) [
    | yes b ↦ inl (extent_apart i j b)
    | no b ↦ inr (extent_apart j i (omega (arith, mod-ne i j count h g)))
  ]

  module _ {base : ℕ} {c : Controller} (q g : ℕ) (out : List (ℕ × Bool))
      (runs : Runs lo hi dlo dhi k base c q g out) where
    -- Fewer multievents are out than the ring holds.
    pub out_few : length out < count
    out_few =
        lt_of_mul-lt-mul_left k
          (omega (arith, t.whole, mul-add k q (length out), runs.counts.one_free))

    -- No two multievents that are out share memory.
    pub out-Disjoint : (i j : ℕ) → i < j → j < length out → Disjoint (piece (q + i)) (piece (q + j))
    out-Disjoint i j h b = extent-Disjoint (q + i) (q + j) (omega arith) (omega (arith, out_few))
