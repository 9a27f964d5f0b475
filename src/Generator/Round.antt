-- ===== src/Generator/Round.antt =====
-- One round of the constructor's loop, and the loop's invariant.
use lseb.Prelude.{
  ℕ, suc, true, ◌+◌, ◌-◌, ◌*◌, ◌%◌, ◌≤◌, ◌<◌, ◌≡◌, refl, arith, ap, sym, ◌∙◌, quarter_word, ok,
  add_size, eq→==, ne→==_false, ◌==◌,
}
use native.Mathlib.Nat.{mod-eq_of_lt}
use lseb.DataFormat.{EventMetaData, EventHeader, event_header_size, Memory, write}
use lseb.Buffer.{Buffer, available, size}
use lseb.Buffer.Ring.{Counts, recount, available-eq, size-eq, reserve-Counts}
use lseb.Generator.{Fill, padded_size, event_size, reserve_event, place_event}
use lseb.Generator.Layout.{Placed, total, total-next, Placed-write, metadata', headers'}

-- The memory is large enough for the headers of all events, and a generated length `n` is from 8 on
-- and keeps header and payload within `cap`.
pub record Fits (lo hi dlo dhi cap : ℕ) : Type 0 where
  pub some_slots : lo < hi
  pub small : hi < quarter_word
  pub data_small : dhi < quarter_word
  pub data_order : dlo < dhi
  pub headers_fit : (hi - lo) * event_header_size ≤ dhi - dlo
  pub base_aligned : dlo % 8 ≡ 0
  pub cap_small : cap < quarter_word

abbrev pub InBounds : ℕ → ℕ → Type 0
InBounds cap n = (8 ≤ n) × (event_header_size + n ≤ cap)

same_write :
    {A : Type 0} (m : Memory A) {p q : ℕ} {a b : A} → p ≡ q → a ≡ b → write m p a ≡ write m q b
same_write m e f = rw (e, f)

same_entry :
    (n : ℕ) {i j o u : ℕ}
    → i ≡ j
    → o ≡ u
    → ◌≡◌ {A = EventMetaData}
        (record { id = i; length = n; offset = o })
        (record { id = j; length = n; offset = u })
same_entry n e f = rw (e, f)

same_header :
    (n f : ℕ) {i j : ℕ}
    → i ≡ j
    → ◌≡◌ {A = EventHeader}
        (record { id = i; length = n; flags = f })
        (record { id = j; length = n; flags = f })
same_header n f e = rw e

-- Before round `i`: `i` events are placed, and the rest still has room for its headers.
pub record Filled (lo hi dlo dhi id cap i : ℕ) (s : Fill) : Type 0 where
  pub metadata_counts : Counts lo hi s.metadata_buffer 0 i
  pub data_counts : Counts dlo dhi s.data_buffer 0 s.offset
  pub counter : s.events_counter ≡ i
  pub offset_at : s.offset ≡ total s.metadata lo i
  pub aligned : s.offset % 8 ≡ 0
  pub room : s.offset + (hi - lo - i) * event_header_size ≤ dhi - dlo
  pub placed : (j : ℕ) → j < i → Placed s.metadata s.headers lo dlo id cap j

-- After the last round all events are placed, and lie in the data.
pub record Complete (lo hi dlo dhi id cap : ℕ) (s : Fill) : Type 0 where
  pub metadata_counts : Counts lo hi s.metadata_buffer 0 (hi - lo - 1)
  pub data_ready : ℕ
  pub data_counts : Counts dlo dhi s.data_buffer 0 data_ready
  pub counter : s.events_counter ≡ hi - lo
  pub bytes : total s.metadata lo (hi - lo) ≤ dhi - dlo
  pub placed : (j : ℕ) → j < hi - lo → Placed s.metadata s.headers lo dlo id cap j

module _ {lo hi dlo dhi id cap i : ℕ} {s : Fill} (fits : Fits lo hi dlo dhi cap)
    (v : Filled lo hi dlo dhi id cap i s) where
  -- What the loop asks of an event's size: it holds a header, leaves room for the headers of the later
  -- events and keeps the data aligned.
  pub record Sized (n : ℕ) : Type 0 where
    pub long : event_header_size ≤ n
    pub short : n ≤ cap
    pub whole : n % 8 ≡ 0
    pub leaves : s.offset + n + (hi - lo - i - 1) * event_header_size ≤ dhi - dlo

  pub free_slots : available s.metadata_buffer ≡ hi - lo - i
  free_slots = omega (arith, available-eq v.metadata_counts)

  free_bytes : available s.data_buffer ≡ dhi - dlo - s.offset
  free_bytes = omega (arith, available-eq v.data_counts)

  padded-Sized :
      (n : ℕ)
      → InBounds cap n
      → (event_header_size ≤ padded_size n) × (padded_size n ≤ cap) × (padded_size n % 8 ≡ 0)
  unfolding padded_size
  padded-Sized n h = omega arith

  pub event_size-Sized : (n : ℕ) → InBounds cap n → Sized (event_size s n)
  unfolding event_size
  event_size-Sized n h = ground (arith, padded-Sized n h, free_slots, free_bytes)

  slot_at : s.metadata_buffer.next_write ≡ lo + i
  slot_at =
      omega (arith, v.metadata_counts.write_at, mod-eq_of_lt {n = i} {m = hi - lo} (omega arith))

  offset_in : s.offset < dhi - dlo
  offset_in = omega (arith, v.metadata_counts.one_free, v.room)

  header_slot : s.data_buffer.next_write ≡ dlo + s.offset
  header_slot = omega (arith, v.data_counts.write_at, mod-eq_of_lt offset_in)

  header_aligned : (s.data_buffer.next_write % 8 == 0) ≡ true
  header_aligned = eq→== _ 0 (omega (arith, header_slot, v.aligned, fits.base_aligned))

  module _ (n : ℕ) (sized : Sized n) where
    metadata_eq :
        write s.metadata s.metadata_buffer.next_write
          (record { id = s.events_counter; length = n; offset = s.offset })
        ≡ metadata' s.metadata s.headers lo dlo id cap i n
    metadata_eq = same_write s.metadata slot_at (same_entry n v.counter v.offset_at)

    headers_eq :
        write s.headers s.data_buffer.next_write
          (record { id = s.events_counter; length = n; flags = id })
        ≡ headers' s.metadata s.headers lo dlo id cap i n
    headers_eq =
        same_write s.headers (header_slot ∙ ap (λ t. dlo + t) v.offset_at)
          (same_header n id v.counter)

    -- What the round writes, with the buffers that it leaves.
    placed_fill : Buffer → Buffer → Fill
    placed_fill metadata_buffer data_buffer = record {
      metadata_buffer = metadata_buffer;
      data_buffer = data_buffer;
      events_counter = add_size s.events_counter 1;
      offset = add_size s.offset n % size s.data_buffer;
      metadata = metadata' s.metadata s.headers lo dlo id cap i n;
      headers = headers' s.metadata s.headers lo dlo id cap i n;
    }

    place_event-eq :
        (m d : Buffer)
        → reserve_event s.metadata_buffer s.data_buffer n ≡ ok (m, d)
        → place_event id s n ≡ ok (placed_fill m d)
    unfolding place_event placed_fill
    place_event-eq m d e = rw (header_aligned, e, metadata_eq, headers_eq)

    next_total : total (metadata' s.metadata s.headers lo dlo id cap i n) lo (suc i) ≡ s.offset + n
    next_total = omega (arith, total-next s.metadata s.headers lo dlo id cap i n, v.offset_at)

    next-Placed :
        (j : ℕ)
        → j < suc i
        → Placed
            (metadata' s.metadata s.headers lo dlo id cap i n)
            (headers' s.metadata s.headers lo dlo id cap i n)
            lo
            dlo
            id
            cap
            j
    next-Placed =
        Placed-write s.metadata s.headers lo dlo id cap i n sized.long sized.short v.placed

    next_offset : s.offset + n < dhi - dlo → add_size s.offset n % size s.data_buffer ≡ s.offset + n
    next_offset h =
        let inner : add_size s.offset n ≡ s.offset + n = omega arith in
        rw (inner, size-eq v.data_counts) (mod-eq_of_lt h)

    -- A round that is not the last one moves both buffers on.
    pub place_event-Filled :
        suc i < hi - lo
        → (s' : Fill) × (place_event id s n ≡ ok s') × Filled lo hi dlo dhi id cap (suc i) s'
    unfolding reserve_event placed_fill
    place_event-Filled more =
        let (m, e, c) = reserve-Counts v.metadata_counts 1 (omega arith) in
        let (d, f, k) = reserve-Counts v.data_counts n (omega (arith, sized.leaves)) in
        let o = next_offset (omega (arith, sized.leaves)) in
        (
          placed_fill m d,
          place_event-eq m d
              (rw (ne→==_false (available s.metadata_buffer) 1 (omega (arith, free_slots)), e, f)),
          record {
            metadata_counts = recount c refl (omega arith);
            data_counts = recount k refl (sym o);
            counter = omega (arith, v.counter);
            offset_at = o ∙ sym next_total;
            aligned = rw o (omega (arith, v.aligned, sized.whole));
            room = rw o (omega (arith, sized.leaves));
            placed = next-Placed;
          },
        )

    pub place_event-Complete :
        suc i ≡ hi - lo
        → (s' : Fill) × (place_event id s n ≡ ok s') × Complete lo hi dlo dhi id cap s'
    unfolding reserve_event placed_fill
    place_event-Complete last = (
      placed_fill s.metadata_buffer s.data_buffer,
      place_event-eq _ _ (rw (eq→== (available s.metadata_buffer) 1 (omega (arith, free_slots)))),
      record {
        metadata_counts = recount v.metadata_counts refl (omega arith);
        data_ready = s.offset;
        data_counts = v.data_counts;
        counter = omega (arith, v.counter);
        bytes = rw (← last) (omega (arith, next_total, sized.leaves));
        placed = λ j h. next-Placed j (omega arith);
      },
    )
