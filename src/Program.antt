-- ===== src/Program.antt =====
-- main.cpp from the configuration to the objects that the threads of the program work on. The memory that `new` gives, the numbers
-- that the length generator's distribution draws and the number of nodes are arguments.
pub mod Startup
pub mod Logging
use lseb.Prelude.{ℕ, ◌+◌, ◌/◌, Result, ok, ◌>>=◌, Option, none, some}
use lseb.DataFormat.{EventHeader, EventMetaData, Memory, event_meta_data_size}
use lseb.Setup.{Configuration, Setup, configure, above_zero}
use lseb.Range.{Range}
use lseb.LengthGenerator
use lseb.Generator.{construct}
use lseb.Controller
use lseb.Accumulator
use lseb.Accumulator.{Accumulator}
use lseb.BuilderUnit
use lseb.BuilderUnit.{BuilderUnit}

-- The memories: the place of the metadata counts slots, and the others count bytes.
pub record Memories : Type 0 where
  pub metadata_begin : ℕ
  pub data_begin : ℕ
  pub receive_begin : ℕ
  pub metadata : Memory EventMetaData
  pub headers : Memory EventHeader

pub record Program : Type 0 where
  pub accumulator : Accumulator
  pub builder_unit : BuilderUnit
  pub metadata : Memory EventMetaData
  pub headers : Memory EventHeader

abbrev pub metadata_in : Memories → Setup → Range
metadata_in m s = record {
  begin = m.metadata_begin;
  end = m.metadata_begin + s.meta_size / event_meta_data_size;
}

abbrev pub data_in : Memories → Setup → Range
data_in m s = record { begin = m.data_begin; end = m.data_begin + s.data_size }

-- The objects, once the configuration is accepted. `lengths i` is what the length generator gives for event `i`.
unfoldable pub allocated : Setup → Configuration → Memories → (ℕ → ℕ) → ℕ → ℕ → Result Program
allocated s conf m lengths id nodes = do
  _ ← LengthGenerator.create (above_zero conf.mean) (above_zero conf.std_dev) s.max_length 0
  let metadata_range = metadata_in m s
  let data_range = data_in m s
  built ← construct lengths metadata_range data_range id m.metadata m.headers
  let controller = Controller.create built.generator metadata_range s.generator_frequency
  bu ← BuilderUnit.create nodes s.bulk_size s.credits s.max_fragment_size id m.receive_begin
  ok (record {
    accumulator = Accumulator.create controller metadata_range data_range s.bulk_size;
    builder_unit = bu;
    metadata = built.metadata;
    headers = built.headers;
  })

-- `none` stands for the program's end with `EXIT_FAILURE`.
unfoldable pub build : Configuration → Memories → (ℕ → ℕ) → ℕ → ℕ → Result (Option Program)
build conf m lengths id nodes = do
  c ← configure conf
  elim c [ none ↦ ok none | some s ↦ (allocated s conf m lengths id nodes >>= λ p. ok (some p)) ]
