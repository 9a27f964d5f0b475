-- ===== src/Program/Startup.antt =====
-- From an accepted configuration to the start of the units' loops.
use native.Mathlib.Nat.{mul_assoc, mul-le-mul_left, mul_comm, le-mul_of_pos_right}
use lseb.Prelude.{
  ℕ, zero, suc, ◌+◌, ◌-◌, ◌*◌, ◌/◌, ◌%◌, ◌≤◌, ◌<◌, ◌≡◌, refl, ap, ◌∙◌, arith, ok, some, true, inl,
  List, [], length, map, int_bound, quarter_word, lt→ltb, le→leb, ne→==_false, sub_size,
  if◌then◌else◌, ◌==◌,
}
use lseb.DataFormat.{EventHeader, EventMetaData, Memory, event_header_size, event_meta_data_size}
use lseb.Setup.Sizes.{Accepted, conf, configure-sized, memories_fit, header_in, fragment_fits}
use lseb.LengthGenerator
use lseb.Generator.{data_padding}
use lseb.Generator.Round.{InBounds}
use lseb.Generator.Construct.{construct-IsBuilt}
use lseb.Accumulator.Window.{IsTable}
use lseb.Accumulator.Start.{built-IsTable, create-state, fresh_controller}
use lseb.Controller
use lseb.Accumulator.{create}
use lseb.BuilderUnit
use lseb.BuilderUnit.{BuilderUnit}
use lseb.BuilderUnit.Rounds.{Rooms}
use lseb.Socket.{Socket}
use lseb.ReadoutUnit.Connecting.{Connections, connect}
use lseb.ReadoutUnit.Connecting.{Attempt, connected}
use lseb.ReadoutUnit.Rows.{all_from}
use lseb.ReadoutUnit.Retries.{tries, ready, connect-ready}
use lseb.ReadoutUnit.Polls.{regions}
use lseb.ReadoutUnit.Serving.{Covered}
use lseb.ReadoutUnit.Rounds.{Idle, Starts}
use lseb.Program.{Program, allocated, build}

abbrev pub sockets : Connections → List Socket
sockets = map (λ c. c.1)

length-sockets : (conn : Socket) (first n : ℕ) → length (sockets (all_from conn first n)) ≡ n
length-sockets conn first zero = refl
length-sockets conn first (suc n) = ap suc (length-sockets conn (suc first) n)

Idle-sockets :
    (credits buffer size first n : ℕ)
    → Idle (sockets (all_from (ready credits buffer size) first n))
Idle-sockets credits buffer size first zero = tt
Idle-sockets credits buffer size first (suc n) =
    (refl, Idle-sockets credits buffer size (suc first) n)

Covered-sockets :
    (credits buffer size first n : ℕ)
    → Covered buffer
        (buffer + size)
        (regions (sockets (all_from (ready credits buffer size) first n)))
Covered-sockets credits buffer size first zero = tt
Covered-sockets credits buffer size first (suc n) =
    (inl (omega arith, omega arith), Covered-sockets credits buffer size (suc first) n)

-- What the program is started with: accepted numbers, a frequency and a mean length, memory where it is free, and a
-- number of nodes that the builder unit's memory is large enough for.
pub record IsStarted (m b c frequency mean lo dlo id nodes : ℕ) : Type 0 where
  pub accepted : Accepted m b c
  pub runs : 0 < frequency
  pub some_length : 0 < mean
  pub mean_fits : event_header_size + mean ≤ m
  pub padded : m * b * (c * 2 + 1) % data_padding ≡ 0
  pub metadata_low : lo + b * (c * 2 + 1) < quarter_word
  pub data_low : dlo + m * b * (c * 2 + 1) < quarter_word
  pub data_aligned : dlo % 8 ≡ 0
  pub known : id < nodes
  pub received_fits : m * b * c * nodes < int_bound

module _ {m b c frequency mean lo dlo id nodes : ℕ}
    (s : IsStarted m b c frequency mean lo dlo id nodes) where
  abbrev hi : ℕ
  hi = lo + b * (c * 2 + 1)

  abbrev dhi : ℕ
  dhi = dlo + m * b * (c * 2 + 1)

  slots : event_header_size * b * (c * 2 + 1) / event_meta_data_size ≡ b * (c * 2 + 1)
  slots = omega (arith, mul_assoc event_header_size b (c * 2 + 1))

  slots_few : b * (c * 2 + 1) < int_bound
  slots_few = omega (arith, s.accepted.meta_fits, mul_assoc event_header_size b (c * 2 + 1))

  rooms :
      (receive_begin n : ℕ)
      → n ≤ nodes
      → Rooms
          (record {
            links = [];
            bulk_size = b;
            credits = c;
            max_fragment_size = m;
            id = id;
            data_ptr = receive_begin;
          })
          n
  rooms receive_begin zero h = tt
  rooms receive_begin (suc n) h = (
    record {
      some_bytes =
          omega (arith, s.accepted.some_bytes, le-mul_of_pos_right m s.accepted.some_events);
      some_credits = s.accepted.some_credits;
      chunk_fits = s.accepted.bulk_fits;
      area_fits = omega (arith, s.received_fits, mul-le-mul_left (m * b * c) some_nodes);
      before_fits = omega (
        arith,
        s.received_fits,
        mul-le-mul_left (m * b * c) below,
        mul_assoc n (m * b) c,
        mul_comm n (m * b * c),
      );
    },
    rooms receive_begin n (omega arith),
  )
    where
      some_nodes : 1 ≤ nodes
      some_nodes = omega arith

      below : n ≤ nodes
      below = omega arith

  lengths_created :
      (std_dev : ℕ)
      → (g : LengthGenerator.LengthGenerator) × (LengthGenerator.create mean std_dev
            (sub_size m event_header_size)
            0
          ≡ ok g)
  unfolding LengthGenerator.create
  lengths_created std_dev =
      let longest : sub_size m event_header_size ≡ m - event_header_size =
        omega (arith, header_in s.accepted, fragment_fits s.accepted) in
      let least : ℕ = if std_dev == 0 then mean else 0 in
      let least_fits : least ≤ mean = ground arith in
      (
        record { max = m - event_header_size; min = least },
        rw (
          longest,
          ne→==_false (m - event_header_size) 0 (omega (arith, s.mean_fits, s.some_length)),
          le→leb least mean least_fits,
          le→leb mean (m - event_header_size) (omega (arith, s.mean_fits)),
        ),
      )

  -- If the configuration is accepted and its numbers fit, and the event lengths are as the generator
  -- needs them, `main` builds its objects with no failed assertion, and `connect` of the readout
  -- unit ends once each builder unit takes the connection, after some tries in vain. Then all is as
  -- the loops need it: the events lie in the data as the accumulator expects, nothing is handed out
  -- or posted, each connection has the data registered, and the builder unit has memory for each
  -- node.
  pub build-Starts :
      (std_dev receive_begin : ℕ) (metadata : Memory EventMetaData) (headers : Memory EventHeader)
      (lengths : ℕ → ℕ) (delay : ℕ → ℕ) (later : ℕ → List Attempt)
      → ((j : ℕ) → InBounds m (lengths j))
      → (p : Program) × (build
            (conf m b c frequency mean std_dev)
            (record {
              metadata_begin = lo;
              data_begin = dlo;
              receive_begin = receive_begin;
              metadata = metadata;
              headers = headers;
            })
            lengths
            id
            nodes
          ≡ ok (some p))
        × IsTable p.metadata lo hi dlo dhi b (c * 2 + 1)
        × (conns : Connections) × (connect c dlo
              (m * b * (c * 2 + 1))
              id
              nodes
              (λ node. tries (delay node) (connected true) (later node))
            ≡ ok (conns, true))
        × Starts lo hi dlo dhi b (hi - lo - 1) nodes p.accumulator (sockets conns) 0
        × Rooms p.builder_unit nodes
  unfolding build allocated BuilderUnit.create Controller.create
  build-Starts std_dev receive_begin metadata headers lengths delay later bounds =
      let fits = memories_fit s.accepted s.metadata_low s.data_low s.data_aligned in
      let whole : dhi - dlo ≡ m * b * (c * 2 + 1) = omega arith in
      let (built, e, v) =
        construct-IsBuilt id lengths metadata headers fits
          (ap (λ n. n % data_padding) whole ∙ s.padded) bounds in
      let (state_eq, first_runs) = create-state v frequency b s.runs in
      let (g, made) = lengths_created std_dev in
      let room = (rooms receive_begin 1 (omega (arith, s.known))).0 in
      let conns = all_from (ready c dlo (m * b * (c * 2 + 1))) 0 nodes in
      (
        record {
          accumulator =
              create (fresh_controller v frequency) (record { begin = lo; end = hi })
                (record { begin = dlo; end = dhi }) b;
          builder_unit = record {
            links = [];
            bulk_size = b;
            credits = c;
            max_fragment_size = m;
            id = id;
            data_ptr = receive_begin;
          };
          metadata = built.metadata;
          headers = built.headers;
        },
        rw (
          build,
          configure-sized m b c frequency mean std_dev s.accepted s.runs s.some_length,
          made,
          slots,
          e,
          lt→ltb (m * b) int_bound s.accepted.bulk_fits,
          lt→ltb (m * b * c) int_bound room.area_fits,
          lt→ltb (m * b * c * nodes) int_bound s.received_fits,
        ),
        built-IsTable v s.accepted.some_events (omega arith) (omega arith)
            (omega (arith, slots_few)) fits.data_order fits.data_small,
        conns,
        connect-ready c dlo (m * b * (c * 2 + 1)) id nodes delay later s.known,
        record {
          controller = fresh_controller v frequency;
          is_state = state_eq;
          runs = first_runs;
          in_time = omega arith;
          nodes = length-sockets (ready c dlo (m * b * (c * 2 + 1))) 0 nodes;
          idle = Idle-sockets c dlo (m * b * (c * 2 + 1)) 0 nodes;
          covered = Covered-sockets c dlo (m * b * (c * 2 + 1)) 0 nodes;
        },
        rooms receive_begin nodes (omega arith),
      )
