-- ===== src/Accumulator/Start.antt =====
-- From the constructors of the generator, the controller and the accumulator to the running state.
use native.Mathlib.Nat.{zero-mod, mul-zero}
use lseb.Prelude.{
  ℕ, ◌+◌, ◌-◌, ◌*◌, ◌%◌, ◌<◌, ◌≡◌, refl, ap, ◌∙◌, arith, [], quarter_word, int_bound,
}
use lseb.Buffer.Ring.{recount}
use lseb.Generator.{Built}
use lseb.Generator.Construct.{IsBuilt}
use lseb.Controller
use lseb.Controller.{Controller}
use lseb.Accumulator.{create}
use lseb.Accumulator.Window.{IsTable}
use lseb.Accumulator.Invariant.{state, Runs}

module _ {lo hi dlo dhi id cap k count : ℕ} {b : Built} (v : IsBuilt lo hi dlo dhi id cap b) where
  -- What the generator laid out serves the accumulator, if the ring is one of whole multievents.
  pub built-IsTable :
      0 < k
      → 0 < count
      → hi - lo ≡ k * count
      → hi - lo < int_bound
      → dlo < dhi
      → dhi < quarter_word
      → IsTable b.metadata lo hi dlo dhi k count
  built-IsTable some_events some_multievents whole few data_order data_small = record {
    some_events = some_events;
    some_multievents = some_multievents;
    whole = whole;
    order = v.counts.some_slots;
    small = v.counts.small;
    few = few;
    data_order = data_order;
    data_small = data_small;
    bytes = v.bytes;
    offset_at = λ j h. (v.placed j h).offset_at;
    long = λ j h. (v.placed j h).long;
  }

module _ {lo hi dlo dhi id cap : ℕ} {b : Built} (v : IsBuilt lo hi dlo dhi id cap b) where
  abbrev pub fresh_controller : ℕ → Controller
  fresh_controller frequency =
      Controller.create b.generator (record { begin = lo; end = hi }) frequency

  -- With a positive frequency, the constructors of controller and accumulator, over what the
  -- generator's constructor laid out, give the state of the invariant with no event generated and no
  -- multievent out.
  pub create-state :
      (frequency k : ℕ)
      → 0 < frequency
      → (create
            (fresh_controller frequency)
            (record { begin = lo; end = hi })
            (record { begin = dlo; end = dhi })
            k
          ≡ state lo hi dlo dhi k (fresh_controller frequency) 0 0 [])
        × Runs lo hi dlo dhi k (hi - lo - 1) (fresh_controller frequency) 0 0 []
  unfolding create Controller.create
  create-state frequency k h = (
    λ i. record (state lo hi dlo dhi k (fresh_controller frequency) 0 0 []) {
      current_metadata = at_begin i;
      release_metadata = at_begin' i;
    },
    record {
      counts = recount v.counts (omega (arith, none_yet)) (omega (arith, none_yet, mul-zero k));
      range_at = refl;
      current_at = omega (arith, all_zero);
      running = h;
      in_word = omega arith;
    },
  )
    where
      none_yet : k * 0 ≡ 0
      none_yet = mul-zero k

      at_begin : lo ≡ lo + k * (0 + 0) % (hi - lo)
      at_begin = omega (arith, ap (λ m. m % (hi - lo)) none_yet, zero-mod (hi - lo))

      at_begin' : lo ≡ lo + k * 0 % (hi - lo)
      at_begin' = omega (arith, ap (λ m. m % (hi - lo)) none_yet, zero-mod (hi - lo))

      all_zero : (k * (0 + 0) + 0) % (hi - lo) ≡ 0
      all_zero = ap (λ m. m % (hi - lo)) (omega (arith, none_yet)) ∙ zero-mod (hi - lo)
