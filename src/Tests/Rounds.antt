-- ===== src/Tests/Rounds.antt =====
-- Rounds of a readout unit over the accumulator of the tests: one that sends to its only node, and one whose first node
-- is too far.
use mathlib.Core.List.{Perm}
use mathlib.Core.List.Perm
use lseb.Accumulator.Window.{extent}
use lseb.Generator.Layout.{total}
use lseb.Prelude.{ℕ, ◌≡◌, refl, false, ok, inl, arith, drop, List, [], ◌∷◌, ◌++◌}
use lseb.Controller.{Controller}
use lseb.Socket.{Socket, Poll, polled, poll_completed_send, collect, available_send}
use lseb.BuilderUnit.Posts.{returns}
use lseb.Accumulator.Invariant.{state, Runs}
use lseb.Accumulator.Undone.{undone}
use lseb.Accumulator.{get_multievent, acquire, check_data_wrap, take_multievent}
use lseb.Controller.{read}
use lseb.Generator.{generate_events, reserve_events}
use lseb.Buffer.{reserve, available, ready, size, advance}
use lseb.Range.{
  validate_subrange, distance_in_range, at_offset, advance_in_range, find_if, find_in_range,
}
use lseb.ReadoutUnit.{
  ReadoutUnit, run_once, acquire_multievents, poll_connections, release_completed, start,
  create_sequence, iota,
}
use lseb.ReadoutUnit.Waiting.{waiting}
use lseb.ReadoutUnit.Polls.{sent}
use lseb.ReadoutUnit.Turns.{IsCycle}
use lseb.ReadoutUnit.Serving.{Serves, Answers}
use lseb.ReadoutUnit.Run.{Turn, run_once-Serves}
use lseb.ReadoutUnit.Rounds.{begun, Starts, begin, next, run_once-succeeds}
use lseb.ReadoutUnit.Stall.{never_sends}
use lseb.Tests.Accumulators.{
  table, table-IsTable, controller, generator, out, running, out-Numbered,
}

abbrev conn : Socket
conn = record {
  mrs = record { addr = 64; length = 192 } ∷ [];
  credits = 2;
  pending_send = [];
  pending_recv = [];
}

abbrev no_polls : ℕ → Poll
no_polls id = polled []

abbrev dues : ℕ → ℕ
dues n = 8

-- The unit's only node has its turn, and its piece waits.
abbrev waiting_unit : ReadoutUnit
waiting_unit = record {
  accumulator = state 0 6 64 256 2 controller 1 1 out;
  connection_ids = conn ∷ [];
  id_sequence = 0 ∷ [];
  seq_it = 0;
  iov_to_send = record { base = 128; len = 64 } ∷ [];
}

one_node : IsCycle 1 (0 ∷ [])
one_node = record {
  size = refl;
  bounded = (omega arith, tt);
  distinct = (tt, tt);
  turn = λ id h. inl (omega arith, tt);
}

waiting_unit-Serves : Serves table 0 6 64 256 2 3 5 1 (0 ∷ []) waiting_unit 5
unfolding extent total
waiting_unit-Serves = record {
  controller = controller;
  q = 1;
  g = 1;
  out = out;
  is_state = refl;
  runs = running;
  numbered = out-Numbered;
  in_time = omega arith;
  sequence = refl;
  place = omega arith;
  nodes = refl;
  order = (tt, tt);
  covered = (inl (omega arith, omega arith), tt);
  ahead = omega arith;
  over = tt;
  within = (omega arith, omega arith, tt);
  cycle = 1;
  taken = refl;
  pieces = (refl, tt);
  split = Perm.refl _;
}

nothing_done : Answers 0 (conn ∷ []) no_polls
nothing_done = (returns [] [] Perm.nil tt, tt)

run_once-Serves_example :
    (ru : ReadoutUnit) × (run_once table waiting_unit dues no_polls 0 ≡ ok ru)
    × Serves table 0 6 64 256 2 3 5 1 (0 ∷ []) ru 8
    × Turn table waiting_unit dues no_polls ru
run_once-Serves_example =
    run_once-Serves table-IsTable one_node 5 waiting_unit 5 dues no_polls 8 waiting_unit-Serves
      (omega arith) nothing_done

-- A controller and an accumulator that have just been built.
abbrev new_controller : Controller
new_controller = record controller {
  generator = record generator {
    metadata_buffer = record { begin = 0; end = 6; next_read = 5; next_write = 5 };
  };
  current_metadata = 0;
  generated_events = 0;
}

new_running : Runs 0 6 64 256 2 5 new_controller 0 0 []
new_running = record {
  counts = record {
    at_begin = refl;
    at_end = refl;
    some_slots = omega arith;
    small = omega arith;
    ordered = omega arith;
    one_free = omega arith;
    read_at = refl;
    write_at = refl;
  };
  range_at = refl;
  current_at = refl;
  running = omega arith;
  in_word = omega arith;
}

one_connection : Starts 0 6 64 256 2 5 1 (state 0 6 64 256 2 new_controller 0 0 []) (conn ∷ []) 0
one_connection = record {
  controller = new_controller;
  is_state = refl;
  runs = new_running;
  in_time = omega arith;
  nodes = refl;
  idle = (refl, tt);
  covered = (inl (omega arith, omega arith), tt);
}

abbrev new_unit : List Socket → List ℕ → ReadoutUnit
new_unit conns ids = record {
  accumulator = state 0 6 64 256 2 new_controller 0 0 [];
  connection_ids = conns;
  id_sequence = ids;
  seq_it = 0;
  iov_to_send = [];
}

run_once-succeeds_example :
    (start (state 0 6 64 256 2 new_controller 0 0 []) (conn ∷ []) 0
      ≡ ok (begun (state 0 6 64 256 2 new_controller 0 0 []) (conn ∷ []) 0))
    × ((begun (state 0 6 64 256 2 new_controller 0 0 []) (conn ∷ []) 0).seq_it ≡ 0)
    × ((begun (state 0 6 64 256 2 new_controller 0 0 []) (conn ∷ []) 0).iov_to_send ≡ [])
    × ((begun (state 0 6 64 256 2 new_controller 0 0 []) (conn ∷ []) 0).connection_ids ≡ conn ∷ [])
    × (ru : ReadoutUnit) × (run_once table (new_unit (conn ∷ []) (0 ∷ [])) dues no_polls 0 ≡ ok ru)
    × Perm
        (undone ru.accumulator.iov_multievents)
        (sent ru.connection_ids ++ waiting (drop ru.seq_it ru.id_sequence) ru.iov_to_send)
    × Turn table (new_unit (conn ∷ []) (0 ∷ [])) dues no_polls ru
unfolding start create_sequence iota
run_once-succeeds_example =
    run_once-succeeds (state 0 6 64 256 2 new_controller 0 0 []) (conn ∷ []) 0 0
      (new_unit (conn ∷ []) (0 ∷ [])) 0 dues no_polls 8 table-IsTable one_connection (omega arith)
      begin (omega arith) nothing_done

-- Three nodes, and three multievents on the ring: node 1 serves node 2 first.
abbrev three : List Socket
three = conn ∷ conn ∷ conn ∷ []

three_connections : Starts 0 6 64 256 2 5 3 (state 0 6 64 256 2 new_controller 0 0 []) three 0
three_connections = record {
  controller = new_controller;
  is_state = refl;
  runs = new_running;
  in_time = omega arith;
  nodes = refl;
  idle = (refl, (refl, (refl, tt)));
  covered = (
    inl (omega arith, omega arith),
    (inl (omega arith, omega arith), (inl (omega arith, omega arith), tt)),
  );
}

started_three :
    start (state 0 6 64 256 2 new_controller 0 0 []) three 1 ≡ ok (new_unit three (2 ∷ 0 ∷ 1 ∷ []))
unfolding start create_sequence iota
started_three = refl

-- Two multievents are there, and the third does not come.
abbrev stuck_unit : ReadoutUnit
stuck_unit = record (new_unit three (2 ∷ 0 ∷ 1 ∷ [])) {
  accumulator =
      state 0 6 64 256 2
        (record controller {
          generator = record generator {
            metadata_buffer = record { begin = 0; end = 6; next_read = 5; next_write = 4 };
          };
        })
        0 1 ((64, false) ∷ (128, false) ∷ []);
  iov_to_send = record { base = 64; len = 64 } ∷ record { base = 128; len = 64 } ∷ [];
}

three-Answers : Answers 0 three no_polls
three-Answers =
    (returns [] [] Perm.nil tt, (returns [] [] Perm.nil tt, (returns [] [] Perm.nil tt, tt)))

stuck_round : run_once table (new_unit three (2 ∷ 0 ∷ 1 ∷ [])) dues no_polls 0 ≡ ok stuck_unit
unfolding run_once acquire_multievents get_multievent acquire check_data_wrap take_multievent read
    generate_events reserve_events reserve available ready size advance validate_subrange
    distance_in_range at_offset advance_in_range find_if find_in_range poll_connections
    poll_completed_send collect available_send release_completed
stuck_round = refl

never_sends_example : (stuck_unit.seq_it ≡ 0) × (sent stuck_unit.connection_ids ≡ [])
never_sends_example =
    never_sends (state 0 6 64 256 2 new_controller 0 0 []) three 1 0
      (new_unit three (2 ∷ 0 ∷ 1 ∷ [])) stuck_unit 8 table-IsTable three_connections (omega arith)
      (omega arith) started_three
      (next (new_unit three (2 ∷ 0 ∷ 1 ∷ [])) stuck_unit 0 8 dues no_polls begin (omega arith)
        three-Answers stuck_round)
