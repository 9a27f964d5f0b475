-- ===== src/Buffer/Ring.antt =====
-- `Buffer` against two counters that only grow: the slots released and the slots reserved so far.
use lseb.Prelude.{
  ℕ, ◌+◌, ◌-◌, ◌%◌, ◌≤◌, ◌<◌, ◌≡◌, refl, quarter_word, arith, ok, err, assert_failed, le→leb,
  lt→ltb, lt→leb_false, le→ltb_false, add_size, sub_size, mod-sub-mod,
}
use native.Mathlib.Nat.{mod-lt, mod-add-mod, zero-mod}
use lseb.Buffer.{Buffer, size, ready, available, advance, release, reserve, create}

-- In the slots [lo, hi), `r` slots were released and `w` reserved: the pointers are these counters
-- modulo the number of slots, and one slot stays free.
pub record Counts (lo hi : ℕ) (b : Buffer) (r w : ℕ) : Type 0 where
  pub at_begin : b.begin ≡ lo
  pub at_end : b.end ≡ hi
  pub some_slots : lo < hi
  pub small : hi < quarter_word
  pub ordered : r ≤ w
  pub one_free : w < r + (hi - lo)
  pub read_at : b.next_read ≡ lo + r % (hi - lo)
  pub write_at : b.next_write ≡ lo + w % (hi - lo)

pub recount :
    {lo hi : ℕ} {b : Buffer} {r w r' w' : ℕ}
    → Counts lo hi b r w
    → r ≡ r'
    → w ≡ w'
    → Counts lo hi b r' w'
recount c e f = rw (← e, ← f) c

module _ {lo hi : ℕ} {b : Buffer} {r w : ℕ} (c : Counts lo hi b r w) where
  pub size-eq : size b ≡ hi - lo
  unfolding size
  size-eq = omega arith

  pub ready-eq : ready b ≡ w - r
  unfolding ready size
  ready-eq = ground (
    arith,
    mod-sub-mod r w (hi - lo),
    mod-lt r {m = hi - lo} (omega arith),
    mod-lt w {m = hi - lo} (omega arith),
  )

  pub available-eq : available b ≡ hi - lo - (w - r)
  unfolding available
  available-eq = omega (arith, size-eq, ready-eq)

  -- Where a pointer of count `k` is after `n` more slots.
  pub advance-eq :
      (k n p : ℕ) → p ≡ lo + k % (hi - lo) → n ≤ hi - lo → advance b p n ≡ lo + (k + n) % (hi - lo)
  unfolding advance
  advance-eq k n p e h = ground (arith, inner, size-eq, mod-add-mod k (hi - lo) n)
    where
      inner : add_size (sub_size p b.begin) n ≡ k % (hi - lo) + n
      inner = omega (arith, mod-lt k {m = hi - lo} (omega arith))

  -- On a ring whose pointers are counters modulo its size, `release` of no more slots than are ready
  -- adds to the counter of the slots released.
  pub release-Counts :
      (n : ℕ) → n ≤ w - r → (b' : Buffer) × (release b n ≡ ok b') × Counts lo hi b' (r + n) w
  unfolding release
  release-Counts n h = (
    record b { next_read = advance b b.next_read n },
    rw (ready-eq, le→leb n (w - r) h),
    ground (arith, advance-eq r n b.next_read c.read_at),
  )

  -- More than is ready fails the assertion.
  pub release_too_many : (n : ℕ) → w - r < n → release b n ≡ err assert_failed
  unfolding release
  release_too_many n h = rw (ready-eq, lt→leb_false n (w - r) h)

  -- On a ring whose pointers are counters modulo its size, `reserve` of fewer slots than are
  -- available adds to the counter of the slots reserved.
  pub reserve-Counts :
      (n : ℕ)
      → n < hi - lo - (w - r)
      → (b' : Buffer) × (reserve b n ≡ ok b') × Counts lo hi b' r (w + n)
  unfolding reserve
  reserve-Counts n h = (
    record b { next_write = advance b b.next_write n },
    rw (available-eq, lt→ltb n (hi - lo - (w - r)) h),
    ground (arith, advance-eq w n b.next_write c.write_at),
  )

  pub reserve_too_many : (n : ℕ) → hi - lo - (w - r) ≤ n → reserve b n ≡ err assert_failed
  unfolding reserve
  reserve_too_many n h = rw (available-eq, le→ltb_false n (hi - lo - (w - r)) h)

-- Releasing all that is ready leaves nothing ready.
pub release-ready :
    {lo hi : ℕ} {b : Buffer} {r w : ℕ}
    → Counts lo hi b r w
    → (b' : Buffer) × (release b (ready b) ≡ ok b') × Counts lo hi b' w w × (ready b' ≡ 0)
release-ready {b = b} c =
    let all = ready-eq c in
    let (b', e, c') = release-Counts c (ready b) (omega (arith, all)) in
    (b', e, recount c' (omega (arith, all, c.ordered)) refl, omega (arith, all, ready-eq c'))

pub create-Counts :
    (lo hi : ℕ)
    → lo < hi
    → hi < quarter_word
    → (b : Buffer) × (create lo hi ≡ ok b) × Counts lo hi b 0 0
unfolding create
create-Counts lo hi h k = (
  record { begin = lo; end = hi; next_read = lo; next_write = lo },
  rw (lt→ltb lo hi h),
  omega (arith, zero-mod (hi - lo)),
)
