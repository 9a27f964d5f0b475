-- ===== src/Tests/Accumulators.antt =====
-- The accumulator on three multievents of two events, each of 32 bytes.
use lseb.Prelude.{
  ℕ, zero, suc, ◌+◌, ◌-◌, ◌*◌, ◌/◌, ◌≤◌, ◌<◌, ◌≡◌, refl, ap, arith, ok, Bool, true, false, List, [],
  ◌∷◌, take, drop, Option, some, none, ◌⊎◌,
}
use lseb.DataFormat.{EventMetaData, EventHeader, Iovec, Memory}
use lseb.Generator.{Built, Generator}
use lseb.Generator.Layout.{total}
use lseb.Generator.Construct.{IsBuilt}
use lseb.Controller.{Controller}
use lseb.Accumulator.{
  Accumulator, release_contiguous_memory, get_multievent, release_multievents, mark, mark_all,
  released_prefix,
}
use lseb.Accumulator.Window.{IsTable, extent}
use lseb.Accumulator.Invariant.{state, Runs, Numbered}
use lseb.Accumulator.Acquire.{Acquired, get_multievent-Acquired}
use lseb.Accumulator.Apart.{Apart, get_multievent-Apart}
use lseb.Accumulator.Release.{AllBack, FirstOut, release_multievents-state}
use lseb.Accumulator.Mark.{mark-set}
use lseb.Accumulator.History.{Consistent, Steps-Consistent, start, next, releases}

abbrev pub table : Memory EventMetaData
table p = record { id = p; length = 32; offset = 32 * p }

abbrev pub headers : Memory EventHeader
headers p = record { id = (p - 64) / 32; length = 32; flags = 3 }

total-table : (j : ℕ) → total table 0 j ≡ 32 * j
unfolding total
total-table zero = refl
total-table (suc j) = omega (arith, total-table j)

pub table-IsTable : IsTable table 0 6 64 256 2 3
table-IsTable = record {
  some_events = omega arith;
  some_multievents = omega arith;
  whole = refl;
  order = omega arith;
  small = omega arith;
  few = omega arith;
  data_order = omega arith;
  data_small = omega arith;
  bytes = omega (arith, total-table 6);
  offset_at = λ j h. omega (arith, total-table j);
  long = λ j h. omega arith;
}

-- The generator started with five events behind it, has released one multievent and made four events.
abbrev pub generator : Generator
generator = record {
  metadata_buffer = record { begin = 0; end = 6; next_read = 1; next_write = 4 };
  id = 3;
}

abbrev pub controller : Controller
controller = record {
  generator = generator;
  metadata_range = record { begin = 0; end = 6 };
  current_metadata = 5;
  generator_frequency = 1000;
  generated_events = 5;
}

-- Multievent 1 is out, at its address.
abbrev pub out : List (ℕ × Bool)
out = (128, false) ∷ []

pub running : Runs 0 6 64 256 2 5 controller 1 1 out
running = record {
  counts = record {
    at_begin = refl;
    at_end = refl;
    some_slots = omega arith;
    small = omega arith;
    ordered = omega arith;
    one_free = omega arith;
    read_at = refl;
    write_at = refl;
  };
  range_at = refl;
  current_at = refl;
  running = omega arith;
  in_word = omega arith;
}

pub out-Numbered : Numbered table 0 64 2 3 1 out
unfolding extent total
out-Numbered = (refl, tt)

-- The one event is too few for a multievent, and eight are due, of which the ring has room for two more.
get_multievent-Acquired_example :
    Acquired table-IsTable 5 1 3 8 out
      (get_multievent table (state 0 6 64 256 2 controller 1 1 out) 8)
get_multievent-Acquired_example =
    get_multievent-Acquired table-IsTable controller 1 1 out running 8 (omega arith) (omega arith)

release_multievents-state_example :
    (n : ℕ) × (c : Controller) × (n ≤ 1)
    × AllBack (take n ((128, true) ∷ []))
    × FirstOut (drop n ((128, true) ∷ []))
    × (release_multievents (state 0 6 64 256 2 controller 1 1 out) (128 ∷ [])
        ≡ ok (state 0 6 64 256 2 c (1 + n) 1 (drop n ((128, true) ∷ []))))
    × Runs 0 6 64 256 2 5 c (1 + n) 1 (drop n ((128, true) ∷ []))
    × (c.generated_events ≡ 5)
unfolding mark_all mark
release_multievents-state_example =
    release_multievents-state table-IsTable controller 1 1 out (128 ∷ []) running ((128, true) ∷ [])
      refl

get_multievent-Apart_example :
    (a : Accumulator) × (p : Option Iovec) × (get_multievent table
        (state 0 6 64 256 2 controller 1 1 out)
        8
      ≡ ok (a, p))
    × (((p ≡ none) × (3 < 2))
        ⊎ ((2 ≤ 3)
            × (iov : Iovec) × (p ≡ some iov)
            × (64 ≤ iov.base)
            × (0 < iov.len)
            × (iov.base + iov.len ≤ 256)
            × Apart table 0 64 2 3 1 out iov))
get_multievent-Apart_example =
    get_multievent-Apart table-IsTable controller 1 1 out running 8 (omega arith) (omega arith)
      out-Numbered

-- With two multievents out.
abbrev out_two : List (ℕ × Bool)
out_two = (128, true) ∷ (192, false) ∷ []

abbrev later_controller : Controller
later_controller = record controller {
  generator = record generator {
    metadata_buffer = record { begin = 0; end = 6; next_read = 1; next_write = 5 };
  };
  current_metadata = 0;
}

running_two : Runs 0 6 64 256 2 5 later_controller 1 0 out_two
running_two = record {
  counts = record {
    at_begin = refl;
    at_end = refl;
    some_slots = omega arith;
    small = omega arith;
    ordered = omega arith;
    one_free = omega arith;
    read_at = refl;
    write_at = refl;
  };
  range_at = refl;
  current_at = refl;
  running = omega arith;
  in_word = omega arith;
}

numbered : Numbered table 0 64 2 3 1 out_two
unfolding extent total
numbered = (refl, (refl, tt))

mark-set_example : mark 192 out_two ≡ ok ((128, true) ∷ (192, true) ∷ [])
mark-set_example = mark-set table-IsTable 1 out_two 1 192 false (omega arith) numbered refl

-- What the constructor of the generator leaves on these six slots.
abbrev pub built : Built
built = record {
  generator = record {
    metadata_buffer = record { begin = 0; end = 6; next_read = 5; next_write = 5 };
    id = 3;
  };
  metadata = table;
  headers = headers;
  capacity = 6;
}

pub built-IsBuilt : IsBuilt 0 6 64 256 3 32 built
built-IsBuilt = record {
  counts = record {
    at_begin = refl;
    at_end = refl;
    some_slots = omega arith;
    small = omega arith;
    ordered = omega arith;
    one_free = omega arith;
    read_at = refl;
    write_at = refl;
  };
  id_at = refl;
  capacity_at = refl;
  bytes = omega (arith, total-table 6);
  placed = λ j h. record {
    id_at = omega arith;
    offset_at = omega (arith, total-table j);
    long = omega arith;
    short = omega arith;
    header_at = ap (λ i. record { id = i; length = 32; flags = 3 }) (omega arith);
  };
}

running-Consistent : Consistent table 0 6 64 256 2 3 5 (state 0 6 64 256 2 controller 1 1 out)
unfolding extent total
running-Consistent = record {
  controller = controller;
  q = 1;
  g = 1;
  out = out;
  is_state = refl;
  runs = running;
  numbered = (refl, tt);
}

abbrev released_controller : Controller
released_controller = record controller {
  generator = record generator {
    metadata_buffer = record { begin = 0; end = 6; next_read = 3; next_write = 4 };
  };
}

-- Multievent 1 comes back.
comes_back :
    release_multievents (state 0 6 64 256 2 controller 1 1 out) (128 ∷ [])
    ≡ ok (state 0 6 64 256 2 released_controller 2 1 [])
unfolding release_multievents mark_all mark release_contiguous_memory released_prefix
    lseb.Range.advance_in_range lseb.Range.at_offset lseb.Controller.release
    lseb.Range.distance_in_range lseb.Range.validate_subrange lseb.Generator.release_events
    lseb.Buffer.release lseb.Buffer.ready lseb.Buffer.size lseb.Buffer.advance
comes_back = refl

Steps-Consistent_example :
    Consistent table 0 6 64 256 2 3 5 (state 0 6 64 256 2 released_controller 2 1 [])
Steps-Consistent_example =
    Steps-Consistent table-IsTable running-Consistent
      (next _ _ _ (start _) (releases (128 ∷ []) comes_back))
