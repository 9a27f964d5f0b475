-- ===== src/Tests/Rings.antt =====
-- The range, the buffer, the generator's ring and the controller on six slots.
use lseb.Prelude.{ℕ, ◌+◌, ◌≤◌, ◌<◌, ◌≡◌, ◌==◌, refl, arith, ok, pos, negsuc}
use lseb.Range.{
  Range, advance_in_range, distance_in_range, find_in_range, accumulate_in_range, at_offset,
  validate_subrange, accumulate,
}
use lseb.Range.Positions.{IsRing}
use lseb.Range.Travel.{travel}
use lseb.Range.Orbit.{IsSub, find_in_range-eq-find?, accumulate_in_range-eq-foldl}
use lseb.Buffer.{Buffer, release, reserve}
use lseb.Buffer.Ring.{Counts, release-Counts, reserve-Counts}
use lseb.Generator.{Generator, generate_events}
use lseb.Generator.Events.{generate_events-Counts}
use lseb.Controller.{Controller, read}
use lseb.Controller.Positions.{Follows, read-Follows}

abbrev ring : Range
ring = record { begin = 10; end = 16 }

-- From slot 14 on, round the end, to slot 12.
abbrev sub : Range
sub = record { begin = 14; end = 12 }

advance_wraps : advance_in_range 14 (pos 4) ring ≡ ok 12
unfolding advance_in_range at_offset
advance_wraps = refl

distance_wraps : distance_in_range sub ring ≡ ok 4
unfolding distance_in_range validate_subrange
distance_wraps = refl

-- A sub-range whose ends meet counts as empty here, and as the whole ring when it is searched.
meeting_ends_distance : distance_in_range (record { begin = 12; end = 12 }) ring ≡ ok 0
unfolding distance_in_range validate_subrange
meeting_ends_distance = refl

meeting_ends_sum :
    accumulate_in_range (record { begin = 12; end = 12 }) ring 0 (λ n p. n + 1) ≡ ok 6
unfolding accumulate_in_range validate_subrange accumulate
meeting_ends_sum = refl

ring-IsRing : IsRing ring
ring-IsRing = omega arith

travel_example :
    (q : ℕ) × (advance_in_range 14 (pos 4) ring ≡ ok q)
    × (10 ≤ q)
    × (q < 16)
    × (distance_in_range (record { begin = 14; end = q }) ring ≡ ok 4)
    × (advance_in_range q (negsuc 3) ring ≡ ok 14)
travel_example = travel ring-IsRing 14 4 (omega arith) (omega arith) (omega arith)

sub-IsSub : IsSub sub ring
sub-IsSub = omega arith

accumulate_in_range-eq-foldl_example : accumulate_in_range sub ring 0 ◌+◌ ≡ ok 50
accumulate_in_range-eq-foldl_example = accumulate_in_range-eq-foldl 0 ◌+◌ sub-IsSub

find_in_range-eq-find?_example : find_in_range sub ring (λ p. p == 11) ≡ ok 11
find_in_range-eq-find?_example = find_in_range-eq-find? (λ p. p == 11) sub-IsSub

-- Two slots are ready, the second across the end.
abbrev buffer : Buffer
buffer = record { begin = 10; end = 16; next_read = 15; next_write = 11 }

buffer-Counts : Counts 10 16 buffer 5 7
buffer-Counts = record {
  at_begin = refl;
  at_end = refl;
  some_slots = omega arith;
  small = omega arith;
  ordered = omega arith;
  one_free = omega arith;
  read_at = refl;
  write_at = refl;
}

release-Counts_example : (b : Buffer) × (release buffer 2 ≡ ok b) × Counts 10 16 b 7 7
release-Counts_example = release-Counts buffer-Counts 2 (omega arith)

reserve-Counts_example : (b : Buffer) × (reserve buffer 3 ≡ ok b) × Counts 10 16 b 5 10
reserve-Counts_example = reserve-Counts buffer-Counts 3 (omega arith)

abbrev generator : Generator
generator = record { metadata_buffer = buffer; id = 1 }

-- Nine events are asked for, and three made.
generate_events-Counts_example :
    (g : Generator) × (generate_events generator 9 ≡ ok (g, 3))
    × Counts 10 16 g.metadata_buffer 5 10
generate_events-Counts_example = generate_events-Counts generator 9 buffer-Counts

-- The generator was five slots ahead when it was built.
abbrev controller : Controller
controller = record {
  generator = generator;
  metadata_range = ring;
  current_metadata = 12;
  generator_frequency = 1000;
  generated_events = 2;
}

controller-Follows : Follows 10 16 5 controller 0 2
controller-Follows = record {
  counts = buffer-Counts;
  range_at = refl;
  current_at = refl;
  running = omega arith;
  in_word = omega arith;
}

read-Follows_example :
    (c : Controller) × (read controller 4 ≡ ok (c, record { begin = 12; end = 14 }))
    × Follows 10 16 5 c 0 4
    × (c.generated_events ≡ 4)
read-Follows_example = read-Follows controller-Follows 4 (omega arith) (omega arith)
