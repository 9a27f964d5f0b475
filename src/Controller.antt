-- ===== src/Controller.antt =====
-- ru/controller.cpp: asks the generator for the events that are due and says which slots they are in.
pub mod Positions
use lseb.Prelude.{
  ℕ, ◌+◌, Result, ok, err, undefined, assert, ◌>>=◌, ◌>>◌, leb, ◌==◌, if◌then◌else◌, add_size,
  sub_size, pos,
}
use lseb.Range.{Range, distance_in_range, advance_in_range}
use lseb.Generator.{Generator, generate_events, release_events}

pub record Controller : Type 0 where
  pub generator : Generator
  pub metadata_range : Range
  pub current_metadata : ℕ
  pub generator_frequency : ℕ
  pub generated_events : ℕ

unfoldable pub create : Generator → Range → ℕ → Controller
create generator metadata_range generator_frequency = record {
  generator = generator;
  metadata_range = metadata_range;
  current_metadata = metadata_range.begin;
  generator_frequency = generator_frequency;
  generated_events = 0;
}

-- `read`. `due` is the number of events that the time since the start asks for: what
-- `elapsed_seconds * m_generator_frequency` is as a `size_t`. The pause before divides by the frequency.
unfoldable pub read : Controller → ℕ → Result (Controller × Range)
read c due = if c.generator_frequency == 0 then err undefined else do
  assert (leb c.generated_events due)
  (generator, n) ← generate_events c.generator (sub_size due c.generated_events)
  current ← advance_in_range c.current_metadata (pos n) c.metadata_range
  ok (
    record c {
      generator = generator;
      current_metadata = current;
      generated_events = add_size c.generated_events n;
    },
    record { begin = c.current_metadata; end = current },
  )

unfoldable pub release : Controller → Range → Result Controller
release c metadata_range = do
  n ← distance_in_range metadata_range c.metadata_range
  generator ← release_events c.generator n
  ok (record c { generator = generator })
