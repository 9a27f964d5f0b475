-- ===== src/Generator.antt =====
-- generator/generator.cpp: the simulated detector. The events of
-- a whole ring of metadata are laid out once; generating and releasing only moves the ring's pointers.
pub mod Layout
pub mod Round
pub mod Construct
pub mod Events
use lseb.Prelude.{
  ℕ, zero, suc, ◌+◌, ◌-◌, ◌%◌, Bool, true, false, not, Result, ok, err, undefined, assert, ◌>>=◌,
  ◌>>◌, ltb, leb, ◌==◌, if◌then◌else◌, add_size, sub_size, mul_size, ◌&&◌,
}
use lseb.DataFormat.{EventMetaData, EventHeader, event_header_size, Memory, write}
use lseb.Buffer.{Buffer, create, size, ready, available, release, reserve}
use lseb.Range.{Range}

pub record Generator : Type 0 where
  pub metadata_buffer : Buffer
  pub id : ℕ

abbrev pub data_padding : ℕ
data_padding = 32

-- The local variables of the constructor's loop, and the two memories that it writes.
pub record Fill : Type 0 where
  pub metadata_buffer : Buffer
  pub data_buffer : Buffer
  pub events_counter : ℕ
  pub offset : ℕ
  pub metadata : Memory EventMetaData
  pub headers : Memory EventHeader

-- The header and the generated payload, rounded down to the padding; the header alone if not
-- enough would be left for the headers of the events to come.
unfoldable pub padded_size : ℕ → ℕ
padded_size length =
    let event_size = add_size event_header_size length in event_size - event_size % data_padding

unfoldable pub event_size : Fill → ℕ → ℕ
event_size s length =
    if ltb (available s.data_buffer) (
      add_size (padded_size length)
        (mul_size (sub_size (available s.metadata_buffer) 1) event_header_size))
    then event_header_size
    else padded_size length

-- `EventHeader` holds 64-bit fields, so its address is a multiple of 8.
abbrev pub is_aligned : ℕ → Bool
is_aligned p = p % 8 == 0

-- The buffers move on after every event but the last.
unfoldable pub reserve_event : Buffer → Buffer → ℕ → Result (Buffer × Buffer)
reserve_event metadata_buffer data_buffer n =
    if available metadata_buffer == 1 then ok (metadata_buffer, data_buffer) else do
      metadata' ← reserve metadata_buffer 1
      data' ← reserve data_buffer n
      ok (metadata', data')

-- One round of the loop for an event of `n` bytes.
unfoldable pub place_event : ℕ → Fill → ℕ → Result Fill
place_event id s n = do
  assert (is_aligned s.data_buffer.next_write)
  (metadata_buffer, data_buffer) ← reserve_event s.metadata_buffer s.data_buffer n
  ok (record {
    metadata_buffer = metadata_buffer;
    data_buffer = data_buffer;
    events_counter = add_size s.events_counter 1;
    offset = add_size s.offset n % size s.data_buffer;
    metadata =
        write s.metadata s.metadata_buffer.next_write
          (record { id = s.events_counter; length = n; offset = s.offset });
    headers =
        write s.headers s.data_buffer.next_write
          (record { id = s.events_counter; length = n; flags = id });
  })

-- The loop. `lengths i` is what the call of `m_length_generator.generate()` for event `i` returns. The
-- fuel is the number of metadata slots, one for each round.
unfoldable pub fill : ℕ → (ℕ → ℕ) → ℕ → Fill → Result Fill
fill zero lengths id s = err undefined
fill (suc fuel) lengths id s = do
  s' ← place_event id s (event_size s (lengths s.events_counter))
  if available s.metadata_buffer == 1 then ok s' else fill fuel lengths id s'

pub record Built : Type 0 where
  pub generator : Generator
  pub metadata : Memory EventMetaData
  pub headers : Memory EventHeader
  pub capacity : ℕ

-- The constructor, over the memories as they were.
unfoldable pub construct :
    (ℕ → ℕ) → Range → Range → ℕ → Memory EventMetaData → Memory EventHeader → Result Built
construct lengths metadata_range data_range id metadata headers = do
  metadata_buffer ← create metadata_range.begin metadata_range.end
  data_buffer ← create data_range.begin data_range.end
  assert (leb event_header_size data_padding)
  assert (size data_buffer % data_padding == 0)
  s ← fill (size metadata_buffer) lengths id (record {
    metadata_buffer = metadata_buffer;
    data_buffer = data_buffer;
    events_counter = 0;
    offset = 0;
    metadata = metadata;
    headers = headers;
  })
  metadata_buffer' ← release s.metadata_buffer (ready s.metadata_buffer)
  data_buffer' ← release s.data_buffer (ready s.data_buffer)
  assert (ready metadata_buffer' == 0 && ready data_buffer' == 0)
  ok (record {
    generator = record { metadata_buffer = metadata_buffer'; id = id };
    metadata = s.metadata;
    headers = s.headers;
    capacity = s.events_counter;
  })

-- `reserve(n - 1)` and `reserve(1)`, unless there is nothing to reserve.
unfoldable pub reserve_events : Generator → ℕ → Result Generator
reserve_events g n = if n == 0 then ok g else do
  b ← reserve g.metadata_buffer (n - 1)
  b' ← reserve b 1
  ok (record g { metadata_buffer = b' })

-- `generateEvents`. What it reads of the metadata it does not use.
unfoldable pub generate_events : Generator → ℕ → Result (Generator × ℕ)
generate_events g n_events = do
  let free = sub_size (available g.metadata_buffer) 1
  let avail_events = if leb n_events free then n_events else free
  g' ← reserve_events g avail_events
  ok (g', avail_events)

-- `releaseEvents`
unfoldable pub release_events : Generator → ℕ → Result Generator
release_events g n_events = do
  assert (leb n_events (ready g.metadata_buffer))
  if n_events == 0 then ok g else do
    b ← release g.metadata_buffer (n_events - 1)
    b' ← release b 1
    ok (record g { metadata_buffer = b' })
