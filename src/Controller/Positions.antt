-- ===== src/Controller/Positions.antt =====
-- The controller's position goes with the generator's count of events.
use lseb.Prelude.{
  ℕ, ◌+◌, add_size, ◌-◌, ◌%◌, ◌≤◌, ◌<◌, ◌≡◌, refl, arith, min, ok, word, ap, ◌∙◌, le→leb,
  ne→==_false, sub_size, pos,
}
use mathlib.Core.Path.{ap₂}
use lseb.Range.{Range, advance_in_range, distance_in_range}
use lseb.Range.Positions.{IsRing, advance-slot, distance-slot}
use lseb.Buffer.Ring.{Counts, recount}
use lseb.Generator.Events.{generate_events-Counts, release_events-Counts}
use lseb.Controller.{Controller, read, release}

-- The generator has released `r` and generated `w` events beyond the `base` that it started from,
-- and the controller's position is the slot of event `w`.
pub record Follows (lo hi base : ℕ) (c : Controller) (r w : ℕ) : Type 0 where
  pub counts : Counts lo hi c.generator.metadata_buffer (base + r) (base + w)
  pub range_at : c.metadata_range ≡ record { begin = lo; end = hi }
  pub current_at : c.current_metadata ≡ lo + w % (hi - lo)
  pub running : 0 < c.generator_frequency
  pub in_word : c.generated_events < word

pub Follows-recount :
    {lo hi base : ℕ} {c : Controller} {r w r' w' : ℕ}
    → Follows lo hi base c r w
    → r ≡ r'
    → w ≡ w'
    → Follows lo hi base c r' w'
Follows-recount f e g = rw (← e, ← g) f

-- The events that are made when `due` are asked for.
abbrev pub made : ℕ → ℕ → Controller → ℕ → ℕ → ℕ → ℕ
made lo hi c r w due = min (due - c.generated_events) (hi - lo - 1 - (w - r))

module _ {lo hi base r w : ℕ} {c : Controller} (f : Follows lo hi base c r w) where
  abbrev range : Range
  range = record { begin = lo; end = hi }

  ring : IsRing range
  ring = record { some_slots = f.counts.some_slots; small = f.counts.small }

  advance-eq :
      (n : ℕ)
      → n ≤ hi - lo
      → advance_in_range c.current_metadata (pos n) c.metadata_range ≡ ok (lo + (w + n) % (hi - lo))
  advance-eq n h =
      ap₂ (λ p t. advance_in_range p (pos n) t) f.current_at f.range_at ∙ advance-slot ring w n h

  distance-eq :
      (n : ℕ)
      → n < hi - lo
      → distance_in_range
          (record { begin = lo + r % (hi - lo); end = lo + (r + n) % (hi - lo) })
          c.metadata_range
        ≡ ok n
  distance-eq n h = ap (distance_in_range _) f.range_at ∙ distance-slot ring r n h

  due-eq :
      (due : ℕ)
      → c.generated_events ≤ due
      → due < word
      → sub_size due c.generated_events ≡ due - c.generated_events
  due-eq due h k = omega (arith, f.in_word)

  made-eq :
      (due : ℕ)
      → min (due - c.generated_events) (hi - lo - 1 - (base + w - (base + r)))
        ≡ made lo hi c r w due
  made-eq due = ap (λ t. min (due - c.generated_events) (hi - lo - 1 - t)) (omega arith)

  made-le : (due : ℕ) → made lo hi c r w due ≤ hi - lo
  made-le due = omega arith

  -- If controller and generator are in step and no fewer events are due than were made, `read` makes
  -- the events that are due, as far as the ring has room, gives their slots, and both are again in
  -- step.
  pub read-Follows :
      (due : ℕ)
      → c.generated_events ≤ due
      → due < word
      → let n = made lo hi c r w due in
        (c' : Controller) × (read c due
          ≡ ok (c', record { begin = lo + w % (hi - lo); end = lo + (w + n) % (hi - lo) }))
        × Follows lo hi base c' r (w + n)
        × (c'.generated_events ≡ c.generated_events + n)
  unfolding read
  read-Follows due h k =
      let n = made lo hi c r w due in
      let (g, e, counts) = generate_events-Counts c.generator (due - c.generated_events) f.counts in
      let total : add_size c.generated_events n ≡ c.generated_events + n = omega arith in
      (
        record c {
          generator = g;
          current_metadata = lo + (w + n) % (hi - lo);
          generated_events = add_size c.generated_events n;
        },
        rw (
          le→leb c.generated_events due h,
          ne→==_false c.generator_frequency 0 (omega (arith, f.running)),
          due-eq due h k,
          e,
          made-eq due,
          advance-eq n (made-le due),
          f.current_at,
        ),
        record {
          counts = recount counts refl (ap (λ t. base + w + t) (made-eq due) ∙ omega arith);
          range_at = f.range_at;
          current_at = refl;
          running = f.running;
          in_word = omega arith;
        },
        total,
      )

  -- If controller and generator are in step, `release` of the slots of the `n` oldest events, if so
  -- many are ready, frees these in the generator, and both are again in step.
  pub release-Follows :
      (n : ℕ)
      → n ≤ w - r
      → (c' : Controller) × (release c
            (record { begin = lo + r % (hi - lo); end = lo + (r + n) % (hi - lo) })
          ≡ ok c')
        × Follows lo hi base c' (r + n) w
        × (c'.generated_events ≡ c.generated_events)
  unfolding release
  release-Follows n h =
      let (g, e, counts) = release_events-Counts c.generator n f.counts (omega arith) in
      (
        record c { generator = g },
        rw (distance-eq n (omega (arith, f.counts.one_free)), e),
        record {
          counts = recount counts (omega arith) refl;
          range_at = f.range_at;
          current_at = f.current_at;
          running = f.running;
          in_word = f.in_word;
        },
        refl,
      )
