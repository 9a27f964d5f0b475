-- ===== src/Generator/Construct.antt =====
-- The constructor of the generator: the loop ends within its fuel and lays out a whole ring.
use lseb.Prelude.{
  ℕ, zero, suc, ◌+◌, ◌-◌, ◌%◌, ◌≤◌, ◌<◌, ◌≡◌, refl, arith, dec_lt, ok, eq→==, ne→==_false,
}
use lseb.DataFormat.{EventMetaData, EventHeader, Memory}
use lseb.Buffer.{Buffer, available, size, ready}
use lseb.Buffer.Ring.{Counts, size-eq, release-ready, create-Counts}
use lseb.Generator.{Fill, Built, event_size, fill, construct, data_padding}
use lseb.Generator.Layout.{Placed, total}
use lseb.Generator.Round.{
  Fits, InBounds, Filled, Complete, event_size-Sized, place_event-Filled, place_event-Complete,
  free_slots,
}

module _ {lo hi dlo dhi id cap : ℕ} (fits : Fits lo hi dlo dhi cap) (lengths : ℕ → ℕ)
    (bounds : (j : ℕ) → InBounds cap (lengths j)) where
  -- From round `i` on the loop needs a round for each slot that is left.
  fill-Complete :
      (fuel i : ℕ) (s : Fill)
      → Filled lo hi dlo dhi id cap i s
      → hi - lo ≤ i + fuel
      → (s' : Fill) × (fill fuel lengths id s ≡ ok s') × Complete lo hi dlo dhi id cap s'
  unfolding fill
  fill-Complete zero i s v h = absurd (omega (arith, v.metadata_counts.one_free))
  fill-Complete (suc fuel) i s v h =
      let n = event_size s (lengths s.events_counter) in
      let sized = event_size-Sized fits v (lengths s.events_counter) (bounds s.events_counter) in
      elim (dec_lt (suc i) (hi - lo)) [
        | yes more ↦
            let (s1, e, v1) = place_event-Filled fits v n sized more in
            let (s2, f, c) = fill-Complete fuel (suc i) s1 v1 (omega arith) in
            (
              s2,
              rw (e, ne→==_false (available s.metadata_buffer) 1 (omega (arith, free_slots fits v)))
                  f,
              c,
            )
        | no last ↦
            let (s1, e, c) =
              place_event-Complete fits v n sized (omega (arith, v.metadata_counts.one_free)) in
            (
              s1,
              rw (
                e,
                eq→== (available s.metadata_buffer) 1
                    (omega (arith, free_slots fits v, v.metadata_counts.one_free)),
              ),
              c,
            )
      ]

-- A ring of laid out events: the generator's ring is empty, and each of its slots has its event.
pub record IsBuilt (lo hi dlo dhi id cap : ℕ) (b : Built) : Type 0 where
  pub counts : Counts lo hi b.generator.metadata_buffer (hi - lo - 1) (hi - lo - 1)
  pub id_at : b.generator.id ≡ id
  pub capacity_at : b.capacity ≡ hi - lo
  pub bytes : total b.metadata lo (hi - lo) ≤ dhi - dlo
  pub placed : (j : ℕ) → j < hi - lo → Placed b.metadata b.headers lo dlo id cap j

abbrev start : (m d : Buffer) → Memory EventMetaData → Memory EventHeader → Fill
start m d metadata headers = record {
  metadata_buffer = m;
  data_buffer = d;
  events_counter = 0;
  offset = 0;
  metadata = metadata;
  headers = headers;
}

start-Filled :
    {lo hi dlo dhi id cap : ℕ} {m d : Buffer} (metadata : Memory EventMetaData)
    (headers : Memory EventHeader)
    → Fits lo hi dlo dhi cap
    → Counts lo hi m 0 0
    → Counts dlo dhi d 0 0
    → Filled lo hi dlo dhi id cap 0 (start m d metadata headers)
unfolding total
start-Filled metadata headers fits c k = record {
  metadata_counts = c;
  data_counts = k;
  counter = refl;
  offset_at = refl;
  aligned = omega arith;
  room = omega (arith, fits.headers_fit);
  placed = λ j h. elim h [ ];
}

-- If the data memory holds the headers of all slots, its size is a multiple of the padding, and
-- every generated length is from 8 to what `cap` allows, the constructor ends with no failed
-- assertion. Then slot `j` describes event `j`, for all slots: the events stand one behind the other
-- in the data, each with a header of its number, length and source, and none is longer than `cap`.
-- The ring is left empty.
pub construct-IsBuilt :
    {lo hi dlo dhi cap : ℕ} (id : ℕ) (lengths : ℕ → ℕ) (metadata : Memory EventMetaData)
    (headers : Memory EventHeader)
    → Fits lo hi dlo dhi cap
    → (dhi - dlo) % data_padding ≡ 0
    → ((j : ℕ) → InBounds cap (lengths j))
    → (b : Built) × (construct lengths
          (record { begin = lo; end = hi })
          (record { begin = dlo; end = dhi })
          id
          metadata
          headers
        ≡ ok b)
      × IsBuilt lo hi dlo dhi id cap b
unfolding construct
construct-IsBuilt {lo} {hi} {dlo} {dhi} {cap} id lengths metadata headers fits padded bounds =
    let (m, e, c) = create-Counts lo hi fits.some_slots fits.small in
    let (d, f, k) = create-Counts dlo dhi fits.data_order fits.data_small in
    let (s, g, w) =
      fill-Complete {id = id} fits lengths bounds (hi - lo) 0 (start m d metadata headers)
        (start-Filled metadata headers fits c k) (omega arith) in
    let (m', e', c', r1) = release-ready w.metadata_counts in
    let (d', f', k', r2) = release-ready w.data_counts in
    (
      record {
        generator = record { metadata_buffer = m'; id = id };
        metadata = s.metadata;
        headers = s.headers;
        capacity = s.events_counter;
      },
      rw (
        e,
        f,
        eq→== (size d % data_padding) 0 (omega (arith, size-eq k)),
        size-eq c,
        g,
        e',
        f',
        eq→== (ready m') 0 r1,
        eq→== (ready d') 0 r2,
      ),
      record {
        counts = c';
        id_at = refl;
        capacity_at = w.counter;
        bytes = w.bytes;
        placed = w.placed;
      },
    )
