-- ===== src/Tests/Programs.antt =====
-- The program with one node, one credit and multievents of one event.
use lseb.Prelude.{◌≡◌, refl, arith, ok, some, none, true, []}
use lseb.DataFormat.{EventHeader, EventMetaData, Memory}
use lseb.Setup.{configure}
use lseb.Setup.Sizes.{conf}
use lseb.Accumulator.Window.{IsTable}
use lseb.ReadoutUnit.Connecting.{Connections, connect, connected}
use lseb.ReadoutUnit.Retries.{tries}
use lseb.ReadoutUnit.Rounds.{Starts}
use lseb.BuilderUnit.Rounds.{Rooms}
use lseb.Program.{Memories, Program, build}
use lseb.Program.Startup.{IsStarted, sockets, build-Starts}

small_program : IsStarted 96 1 1 1000 24 0 64 0 1
small_program = record {
  accepted = record {
    some_bytes = omega arith;
    whole_headers = refl;
    some_events = omega arith;
    some_credits = omega arith;
    slots_fit = omega arith;
    meta_fits = omega arith;
    bulk_fits = omega arith;
    data_fits = omega arith;
  };
  runs = omega arith;
  some_length = omega arith;
  mean_fits = omega arith;
  padded = refl;
  metadata_low = omega arith;
  data_low = omega arith;
  data_aligned = refl;
  known = omega arith;
  received_fits = omega arith;
}

abbrev blank : Memory EventMetaData
blank p = record { id = 0; length = 0; offset = 0 }

abbrev blank_headers : Memory EventHeader
blank_headers p = record { id = 0; length = 0; flags = 0 }

abbrev memories : Memories
memories = record {
  metadata_begin = 0;
  data_begin = 64;
  receive_begin = 512;
  metadata = blank;
  headers = blank_headers;
}

build-Starts_example :
    (p : Program) × (build (conf 96 1 1 1000 24 4) memories (λ j. 40) 0 1 ≡ ok (some p))
    × IsTable p.metadata 0 3 64 352 1 3
    × (conns : Connections) × (connect 1 64 288 0 1 (λ node. tries 2 (connected true) [])
        ≡ ok (conns, true))
    × Starts 0 3 64 352 1 2 1 p.accumulator (sockets conns) 0
    × Rooms p.builder_unit 1
build-Starts_example =
    build-Starts small_program 4 512 blank blank_headers (λ j. 40) (λ node. 2) (λ node. [])
      (λ j. (omega arith, omega arith))

-- A fragment size that is not a whole number of headers.
refused : build (conf 100 1 1 1000 24 4) memories (λ j. 40) 0 1 ≡ ok none
unfolding build configure
refused = refl
