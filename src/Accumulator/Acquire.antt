-- ===== src/Accumulator/Acquire.antt =====
-- `get_multievent`: which events and which memory it hands out, and that no assertion fails.
use lseb.Prelude.{
  ℕ, ◌+◌, ◌-◌, ◌*◌, ◌≤◌, ◌<◌, ◌≡◌, refl, arith, Bool, false, List, [], ◌∷◌, ◌++◌, length, word,
  int_bound, Result, ok, ◌>>=◌, Option, some, none, ◌⊎◌, inl, inr, dec_lt, leb, lt→ltb,
  le→ltb_false, ltb, le→leb, lt→leb_false, if◌then◌else◌,
}
use native.Mathlib.Nat.{mul-le-mul_left, le-add_right}
use lseb.DataFormat.{EventMetaData, Iovec, Memory}
use lseb.Range.Positions.{distance-slot}
use lseb.Controller.{Controller}
use lseb.Controller.Positions.{Follows-recount, read-Follows, made}
use lseb.Accumulator.{Accumulator, take_multievent, acquire, get_multievent}
use lseb.Accumulator.Window.{IsTable, extent}
use lseb.Accumulator.Invariant.{state, Runs}
use lseb.Accumulator.Take.{ring, same_events, take_multievent-state}

module _ {metadata : Memory EventMetaData} {lo hi dlo dhi k count : ℕ}
    (t : IsTable metadata lo hi dlo dhi k count) where
  -- What a call of `get_multievent` may end in, with multievents of `out` out and `q` released, at a
  -- time when `due` events are due, and with `total` events to take from.
  abbrev pub Acquired :
      ℕ → ℕ → ℕ → ℕ → List (ℕ × Bool) → Result (Accumulator × Option Iovec) → Type 0
  Acquired base q total due out r =
      let iov = extent metadata lo dlo k count (q + length out) in
      let out' = out ++ (iov.base, false) ∷ [] in
      (c' : Controller) × (g' : ℕ) × (c'.generated_events ≤ due)
      × ((r ≡ ok (state lo hi dlo dhi k c' q g' out, none))
            × (g' < k)
            × (g' ≡ total)
            × Runs lo hi dlo dhi k base c' q g' out
          ⊎ (r ≡ ok (state lo hi dlo dhi k c' q g' out', some iov))
            × (g' + k ≡ total)
            × Runs lo hi dlo dhi k base c' q g' out')

  -- The end of `get_multievent`, once the controller was asked.
  abbrev hand_out : Accumulator → Result (Accumulator × Option Iovec)
  hand_out a =
      if leb a.events_in_multievent a.generated_events
      then take_multievent metadata a
      else ok (a, none)

  module _ {base : ℕ} (c : Controller) (q g : ℕ) (out : List (ℕ × Bool))
      (runs : Runs lo hi dlo dhi k base c q g out) (due : ℕ) (later : c.generated_events ≤ due)
      (in_word : due < word) where
    -- The events that are there once the controller has made those that are due, as far as the ring has room.
    abbrev pub asked_events : ℕ
    asked_events = g + made lo hi c (k * q) (k * (q + length out) + g) due

    -- The controller is only asked if there are too few for a multievent.
    abbrev pub total_events : ℕ
    total_events = if ltb g k then asked_events else g

    acquire-state :
        (c' : Controller) × (acquire (state lo hi dlo dhi k c q g out) due
          ≡ ok (state lo hi dlo dhi k c' q asked_events out))
        × Runs lo hi dlo dhi k base c' q asked_events out
        × (c'.generated_events ≤ due)
    unfolding acquire
    acquire-state =
        let w = k * (q + length out) + g in
        let n = made lo hi c (k * q) w due in
        let (c', e, f, total) = read-Follows runs due later in_word in
        let fewer : w - k * q + n < hi - lo =
          omega (arith, runs.counts.one_free, runs.counts.ordered) in
        let apart : g ≤ w - k * q =
          omega (arith, mul-le-mul_left k (le-add_right q (length out))) in
        (
          c',
          rw (
            e,
            distance-slot (ring t) w n (omega arith),
            lt→ltb (g + n) int_bound (omega (arith, t.few)),
          ),
          Follows-recount f refl (omega arith),
          omega (arith, total),
        )

    asked :
        g < k
        → Acquired base q asked_events due out
            (acquire (state lo hi dlo dhi k c q g out) due >>= hand_out)
    asked short =
        let (c', e, f, in_time) = acquire-state in
        let g' = asked_events in
        rw e (elim (dec_lt g' k) [
          | yes few ↦ (c', g', in_time, inl (rw (lt→leb_false k g' few), few, refl, f))
          | no enough ↦ (
            c',
            g' - k,
            in_time,
            inr (
              rw (le→leb k g' (omega arith)) (take_multievent-state t c' q g' out),
              omega arith,
              Follows-recount f refl (same_events t q g' out _ (omega arith)),
            ),
          )
        ])

    -- In a state of the invariant, with no fewer events due than were made, `get_multievent` never
    -- fails. If fewer events are there than a multievent needs, it asks the controller, which adds
    -- those that are due, as far as the ring has room. Either they are still too few, all of them
    -- stay and nothing is handed out; or the next multievent is handed out with its memory, and its
    -- events are taken from those that are there. The new state is again one of the invariant.
    pub get_multievent-Acquired :
        Acquired base q total_events due out
          (get_multievent metadata (state lo hi dlo dhi k c q g out) due)
    unfolding get_multievent
    get_multievent-Acquired = elim (dec_lt g k) [
      | yes short ↦ rw (lt→ltb g k short) (asked short)
      | no enough ↦ (
        c,
        g - k,
        later,
        inr (
          rw (le→ltb_false g k (omega arith), le→leb k g (omega arith))
              (take_multievent-state t c q g out),
          rw (le→ltb_false g k (omega arith)) (omega arith),
          Follows-recount runs refl (same_events t q g out _ (omega arith)),
        ),
      )
    ]
