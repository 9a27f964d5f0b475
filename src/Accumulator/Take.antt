-- ===== src/Accumulator/Take.antt =====
-- The part of `get_multievent` that hands out the next multievent.
use lseb.Prelude.{
  ℕ, suc, ◌+◌, ◌-◌, ◌*◌, ◌%◌, ◌≤◌, ◌≡◌, refl, ap, ◌∙◌, arith, Bool, false, List, [], ◌∷◌, ◌++◌,
  length, length-append, ok, negsuc, ltb, eq→==, sub_size, some, none,
}
use mathlib.Core.Option.{get_or}
use native.Mathlib.Nat.{mul-suc}
use lseb.DataFormat.{EventMetaData, Iovec, Memory}
use lseb.Generator.Layout.{total, total_mono}
use lseb.Range.{advance_in_range, find_in_range}
use lseb.Range.Positions.{IsRing, advance-slot, retreat-slot}
use lseb.Range.Orbit.{find_in_range-eq-find?, find?-none, find?, slots}
use lseb.Controller.{Controller}
use lseb.Accumulator.{Accumulator, check_data_wrap, take_multievent}
use lseb.Accumulator.Window.{
  IsTable, extent, first, window, window-IsSub, slots-window, no_wrap, offset_first, slot-eq,
  block_in,
}
use lseb.Accumulator.Invariant.{state}

module _ {metadata : Memory EventMetaData} {lo hi dlo dhi k count : ℕ}
    (t : IsTable metadata lo hi dlo dhi k count) where
  pub ring : IsRing (record { begin = lo; end = hi })
  ring = record { some_slots = t.order; small = t.small }

  -- The search for an event before the first one fails.
  check_data_wrap-false :
      (j : ℕ) (a : Accumulator)
      → a.metadata_range ≡ record { begin = lo; end = hi }
      → check_data_wrap metadata a (window lo hi k j) ≡ ok false
  unfolding check_data_wrap
  check_data_wrap-false j a e =
      rw (searched, eq→== (window lo hi k j).end (window lo hi k j).end refl)
    where
      before : ℕ → Bool
      before m = ltb (metadata m).offset (metadata (window lo hi k j).begin).offset

      missing : find? before (slots (window lo hi k j) (record { begin = lo; end = hi })) ≡ none
      missing =
          ap (find? before) (slots-window t j)
          ∙ find?-none (record { begin = lo; end = hi }) before k _ (omega (arith, block_in t j))
              (no_wrap t j)

      searched :
          find_in_range (window lo hi k j) a.metadata_range before ≡ ok (window lo hi k j).end
      searched =
          ap (λ r. find_in_range (window lo hi k j) r before) e
          ∙ find_in_range-eq-find? before (window-IsSub t j)
          ∙ ap (λ o. ok (get_or o (window lo hi k j).end)) missing

  module _ (j : ℕ) where
    begin_at :
        dlo + (metadata (lo + k * j % (hi - lo))).offset ≡ (extent metadata lo dlo k count j).base
    unfolding extent
    begin_at = ap (λ m. dlo + m) (offset_first t j)

    last_slot :
        advance_in_range (lo + (k * j + k) % (hi - lo)) (negsuc 0) (record { begin = lo; end = hi })
        ≡ ok (lo + (k * j + (k - 1)) % (hi - lo))
    last_slot =
        ap (λ m. advance_in_range (lo + m % (hi - lo)) (negsuc 0) (record { begin = lo; end = hi }))
          (omega (arith, t.some_events))
        ∙ retreat-slot ring (k * j + (k - 1))

    -- The last event ends where the events of the multievent do.
    last_end :
        (metadata (lo + (k * j + (k - 1)) % (hi - lo))).offset
          + (metadata (lo + (k * j + (k - 1)) % (hi - lo))).length
        ≡ total metadata lo (first metadata lo dlo k count j + k)
    unfolding total
    last_end =
        ap (λ m. (metadata (lo + m)).offset + (metadata (lo + m)).length)
          (slot-eq t j (k - 1) (omega (arith, t.some_events)))
        ∙ ap (λ o. o + (metadata (lo + (first metadata lo dlo k count j + (k - 1)))).length)
            (t.offset_at (first metadata lo dlo k count j + (k - 1))
              (omega (arith, block_in t j, t.some_events)))
        ∙ ap (total metadata lo) whole_block
      where
        whole_block :
            suc (first metadata lo dlo k count j + (k - 1)) ≡ first metadata lo dlo k count j + k
        whole_block = omega (arith, t.some_events)

    iov_at :
        ◌≡◌ {A = Iovec}
          (record {
            base = dlo + (metadata (lo + k * j % (hi - lo))).offset;
            len =
                sub_size
                  (dlo
                    + (metadata (lo + (k * j + (k - 1)) % (hi - lo))).offset
                    + (metadata (lo + (k * j + (k - 1)) % (hi - lo))).length)
                  (dlo + (metadata (lo + k * j % (hi - lo))).offset);
          })
          (extent metadata lo dlo k count j)
    unfolding extent
    iov_at = λ i. record { base = begin_at i; len = len_at i }
      where
        len_at :
            sub_size
              (dlo
                + (metadata (lo + (k * j + (k - 1)) % (hi - lo))).offset
                + (metadata (lo + (k * j + (k - 1)) % (hi - lo))).length)
              (dlo + (metadata (lo + k * j % (hi - lo))).offset)
            ≡ total metadata lo (first metadata lo dlo k count j + k)
              - total metadata lo (first metadata lo dlo k count j)
        len_at = omega (
          arith,
          last_end,
          offset_first t j,
          t.bytes,
          total_mono metadata lo (first metadata lo dlo k count j)
              (first metadata lo dlo k count j + k) (omega arith),
          total_mono metadata lo (first metadata lo dlo k count j + k) (hi - lo) (block_in t j),
        )

  -- With enough events the next multievent is handed out: its memory, from its first event's header to
  -- the end of its last event.
  pub take_multievent-state :
      (c : Controller) (q g : ℕ) (out : List (ℕ × Bool))
      → let iov = extent metadata lo dlo k count (q + length out) in
        take_multievent metadata (state lo hi dlo dhi k c q g out)
        ≡ ok (state lo hi dlo dhi k c q (g - k) (out ++ (iov.base, false) ∷ []), some iov)
  unfolding take_multievent
  take_multievent-state c q g out =
      rw
        (
          advance-slot ring (k * (q + length out)) k (omega (arith, block_in t 0)),
          check_data_wrap-false (q + length out) (state lo hi dlo dhi k c q g out) refl,
          last_slot (q + length out),
        )
        (λ i. ok (
          record (state lo hi dlo dhi k c q g out) {
            current_metadata = next_at i;
            generated_events = g - k;
            iov_multievents = out ++ (begin_at (q + length out) i, false) ∷ [];
          },
          some (iov_at (q + length out) i),
        ))
    where
      next_at :
          lo + (k * (q + length out) + k) % (hi - lo)
          ≡ lo
            + k
              * (q
                  + length
                      (out ++ ((extent metadata lo dlo k count (q + length out)).base, false) ∷ []))
              % (hi - lo)
      next_at =
          ap (λ m. lo + m % (hi - lo))
            (omega (
              arith,
              mul-suc k (q + length out),
              ap (λ m. k * (q + m))
                  (length-append out
                    (((extent metadata lo dlo k count (q + length out)).base, false) ∷ [])),
            ))

  -- Handing a multievent out moves its events from those generated to those out.
  pub same_events :
      (q g : ℕ) (out : List (ℕ × Bool)) (x : ℕ × Bool)
      → k ≤ g
      → k * (q + length out) + g ≡ k * (q + length (out ++ x ∷ [])) + (g - k)
  same_events q g out x h =
      omega (arith, mul-suc k (q + length out), ap (λ m. k * (q + m)) (length-append out (x ∷ [])))
