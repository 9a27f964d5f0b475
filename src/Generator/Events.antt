-- ===== src/Generator/Events.antt =====
-- `generateEvents` and `releaseEvents`: how far the ring's two counters move.
use lseb.Prelude.{
  ℕ, zero, suc, ◌+◌, ◌-◌, ◌≤◌, ◌<◌, ◌≡◌, refl, arith, min, ok, err, assert_failed, if◌then◌else◌,
  leb, sub_size, lt→leb_false, le→leb,
}
use native.Mathlib.Nat.{add-zero}
use lseb.Buffer.{available}
use lseb.Buffer.Ring.{Counts, recount, available-eq, ready-eq, reserve-Counts, release-Counts}
use lseb.Generator.{Generator, reserve_events, generate_events, release_events}

if-leb-min : (n f : ℕ) → (if leb n f then n else f) ≡ min n f
if-leb-min n f = ground arith

-- A move by `n - 1` slots and by one more is a move by `n`.
reserve_events-Counts :
    {lo hi r w : ℕ} (g : Generator) (n : ℕ)
    → Counts lo hi g.metadata_buffer r w
    → n ≤ hi - lo - 1 - (w - r)
    → (g' : Generator) × (reserve_events g n ≡ ok g') × Counts lo hi g'.metadata_buffer r (w + n)
unfolding reserve_events
reserve_events-Counts g zero c h = (g, refl, rw add-zero c)
reserve_events-Counts {lo} {hi} {r} {w} g (suc n) c h =
    let (b, e, c1) = reserve-Counts c n (omega arith) in
    let (b', e', c2) = reserve-Counts c1 1 (omega arith) in
    (record g { metadata_buffer = b' }, ground (arith, e, e'), recount c2 refl (omega arith))

-- On a ring whose pointers are counters modulo its size, `generateEvents(n)` never fails: it makes
-- `n` events, or as many as leave one slot free.
pub generate_events-Counts :
    {lo hi r w : ℕ} (g : Generator) (n : ℕ)
    → Counts lo hi g.metadata_buffer r w
    → let made = min n (hi - lo - 1 - (w - r)) in
      (g' : Generator) × (generate_events g n ≡ ok (g', made))
      × Counts lo hi g'.metadata_buffer r (w + made)
unfolding generate_events
generate_events-Counts {lo} {hi} {r} {w} g n c =
    rw (free, if-leb-min n (hi - lo - 1 - (w - r)))
      (let (g', e, c') = reserve_events-Counts g (min n (hi - lo - 1 - (w - r))) c (omega arith) in
        (g', rw e, c'))
  where
    free : sub_size (available g.metadata_buffer) 1 ≡ hi - lo - 1 - (w - r)
    free = omega (arith, available-eq c)

-- On a ring whose pointers are counters modulo its size, `releaseEvents(n)` frees `n` of the events,
-- if so many are ready.
pub release_events-Counts :
    {lo hi r w : ℕ} (g : Generator) (n : ℕ)
    → Counts lo hi g.metadata_buffer r w
    → n ≤ w - r
    → (g' : Generator) × (release_events g n ≡ ok g') × Counts lo hi g'.metadata_buffer (r + n) w
unfolding release_events
release_events-Counts {r = r} {w = w} g zero c h =
    (g, rw (ready-eq c, le→leb 0 (w - r) h), rw add-zero c)
release_events-Counts {lo} {hi} {r} {w} g (suc n) c h =
    let (b, e, c1) = release-Counts c n (omega arith) in
    let (b', e', c2) = release-Counts c1 1 (omega arith) in
    (
      record g { metadata_buffer = b' },
      rw (ready-eq c, le→leb (suc n) (w - r) h) (ground (arith, e, e')),
      recount c2 (omega arith) refl,
    )

pub release_events_too_many :
    {lo hi r w : ℕ} (g : Generator) (n : ℕ)
    → Counts lo hi g.metadata_buffer r w
    → w - r < n
    → release_events g n ≡ err assert_failed
unfolding release_events
release_events_too_many {r = r} {w = w} g n c h = rw (ready-eq c, lt→leb_false n (w - r) h)
