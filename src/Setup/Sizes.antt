-- ===== src/Setup/Sizes.antt =====
-- The sizes of the memories fit what the generator and the accumulator ask for.
use native.Mathlib.Nat.{mul-le-mul_left, mul_assoc, mul_comm, le-mul_of_pos_right}
use lseb.Prelude.{
  ℕ, ◌+◌, ◌*◌, ◌-◌, ◌%◌, ◌≤◌, ◌<◌, ◌≡◌, arith, ok, pos, some, int_bound, quarter_word, lt→ltb,
  ne→==_false, eq→==, sub_size,
}
use lseb.DataFormat.{event_header_size}
use lseb.Generator.Round.{Fits, InBounds}
use lseb.Setup.{Configuration, Setup, allocate, configure}

-- Accepted numbers: the fragment size is a multiple of the header's size, and the memories' sizes are `int`s.
pub record Accepted (max_fragment_size bulk_size credits : ℕ) : Type 0 where
  pub some_bytes : 0 < max_fragment_size
  pub whole_headers : max_fragment_size % event_header_size ≡ 0
  pub some_events : 0 < bulk_size
  pub some_credits : 0 < credits
  pub slots_fit : credits * 2 + 1 < int_bound
  pub meta_fits : event_header_size * bulk_size * (credits * 2 + 1) < int_bound
  pub bulk_fits : max_fragment_size * bulk_size < int_bound
  pub data_fits : max_fragment_size * bulk_size * (credits * 2 + 1) < int_bound

-- The configuration with these numbers.
abbrev pub conf : ℕ → ℕ → ℕ → ℕ → ℕ → ℕ → Configuration
conf max_fragment_size bulk_size credits frequency mean std_dev = record {
  max_fragment_size = pos max_fragment_size;
  bulked_events = pos bulk_size;
  credits = pos credits;
  frequency = pos frequency;
  mean = pos mean;
  std_dev = pos std_dev;
}

module _ {m b c : ℕ} (a : Accepted m b c) where
  pub header_in : event_header_size ≤ m
  header_in = omega (arith, a.some_bytes, a.whole_headers)

  -- Header and data memory of the same events.
  pub headers_below : event_header_size * (b * (c * 2 + 1)) ≤ m * b * (c * 2 + 1)
  headers_below = omega (
    arith,
    mul-le-mul_left (b * (c * 2 + 1)) header_in,
    mul_comm (b * (c * 2 + 1)) m,
    mul_assoc m b (c * 2 + 1),
  )

  pub fragment_fits : m < int_bound
  fragment_fits = omega (arith, a.bulk_fits, le-mul_of_pos_right m a.some_events)

  pub memories_fit :
      {lo dlo : ℕ}
      → lo + b * (c * 2 + 1) < quarter_word
      → dlo + m * b * (c * 2 + 1) < quarter_word
      → dlo % 8 ≡ 0
      → Fits lo (lo + b * (c * 2 + 1)) dlo (dlo + m * b * (c * 2 + 1)) m
  memories_fit h k z =
      let slots : 0 < b * (c * 2 + 1) =
        omega (arith, a.some_events, le-mul_of_pos_right {m = c * 2 + 1} b (omega arith)) in
      record {
        some_slots = omega (arith, slots);
        small = h;
        data_small = k;
        data_order = omega (arith, slots, headers_below);
        headers_fit = omega (arith, headers_below);
        base_aligned = z;
        cap_small = omega (arith, fragment_fits);
      }

-- The sizes for these numbers.
abbrev pub sized : ℕ → ℕ → ℕ → ℕ → Setup
sized m b c frequency = record {
  bulk_size = b;
  credits = c;
  max_fragment_size = m;
  meta_size = event_header_size * b * (c * 2 + 1);
  data_size = m * b * (c * 2 + 1);
  generator_frequency = frequency;
  max_length = sub_size m event_header_size;
}

pub configure-sized :
    (m b c frequency mean std_dev : ℕ)
    → Accepted m b c
    → 0 < frequency
    → 0 < mean
    → configure (conf m b c frequency mean std_dev) ≡ ok (some (sized m b c frequency))
unfolding configure allocate
configure-sized m b c frequency mean std_dev a f g = rw (
  ne→==_false m 0 (omega (arith, a.some_bytes)),
  eq→== (m % event_header_size) 0 a.whole_headers,
  ne→==_false b 0 (omega (arith, a.some_events)),
  ne→==_false c 0 (omega (arith, a.some_credits)),
  lt→ltb (c * 2 + 1) int_bound a.slots_fit,
  lt→ltb (event_header_size * b * (c * 2 + 1)) int_bound a.meta_fits,
  lt→ltb (m * b) int_bound a.bulk_fits,
  lt→ltb (m * b * (c * 2 + 1)) int_bound a.data_fits,
  lt→ltb 0 frequency f,
  lt→ltb 0 mean g,
)

-- The program takes an accepted configuration with a positive frequency and mean. Then the metadata
-- are `bulk_size` events for each of `2 * credits + 1` multievents; the two memories, if the data
-- are aligned and both lie below 2 ^ 62, are as the generator asks for with the fragment size as the
-- longest event; and a generated length from 8 to the generator's maximum keeps to that.
pub configure-Fits :
    (m b c frequency mean std_dev lo dlo n : ℕ)
    → Accepted m b c
    → 0 < frequency
    → 0 < mean
    → lo + b * (c * 2 + 1) < quarter_word
    → dlo + m * b * (c * 2 + 1) < quarter_word
    → dlo % 8 ≡ 0
    → 8 ≤ n
    → n ≤ m - event_header_size
    → (s : Setup) × (configure (conf m b c frequency mean std_dev) ≡ ok (some s))
      × (s.meta_size ≡ event_header_size * (b * (c * 2 + 1)))
      × Fits lo (lo + b * (c * 2 + 1)) dlo (dlo + s.data_size) m
      × (s.max_length ≡ m - event_header_size)
      × InBounds m n
configure-Fits m b c frequency mean std_dev lo dlo n a f g h k z u v = (
  sized m b c frequency,
  configure-sized m b c frequency mean std_dev a f g,
  mul_assoc event_header_size b (c * 2 + 1),
  memories_fit a h k z,
  omega (arith, header_in a, fragment_fits a),
  omega (arith, header_in a, u, v),
)
