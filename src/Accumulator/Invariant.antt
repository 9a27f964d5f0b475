-- ===== src/Accumulator/Invariant.antt =====
-- The accumulator's state, from the number of multievents that were released and those that are out.
use lseb.Prelude.{ℕ, suc, ◌+◌, ◌-◌, ◌*◌, ◌%◌, ◌≡◌, Bool, List, [], ◌∷◌, length}
use lseb.DataFormat.{EventMetaData, Memory}
use lseb.Controller.{Controller}
use lseb.Controller.Positions.{Follows}
use lseb.Accumulator.{Accumulator}
use lseb.Accumulator.Window.{extent}

module _ (lo hi dlo dhi k : ℕ) where
  -- `q` multievents were released, those of `out` follow, and `g` more events are generated.
  abbrev pub state : Controller → ℕ → ℕ → List (ℕ × Bool) → Accumulator
  state c q g out = record {
    controller = c;
    metadata_range = record { begin = lo; end = hi };
    data_range = record { begin = dlo; end = dhi };
    current_metadata = lo + k * (q + length out) % (hi - lo);
    events_in_multievent = k;
    generated_events = g;
    iov_multievents = out;
    release_metadata = lo + k * q % (hi - lo);
  }

  -- The generator has released the events of the first `q` multievents, and generated those of all
  -- multievents and `g` more.
  abbrev pub Runs : ℕ → Controller → ℕ → ℕ → List (ℕ × Bool) → Type 0
  Runs base c q g out = Follows lo hi base c (k * q) (k * (q + length out) + g)

-- The multievents that are out are number `q` and those behind it, each at its address.
abbrev pub Numbered : Memory EventMetaData → ℕ → ℕ → ℕ → ℕ → ℕ → List (ℕ × Bool) → Type 0
Numbered metadata lo dlo k count q [] = Unit {0}
Numbered metadata lo dlo k count q ((p, done) ∷ out) =
    (p ≡ (extent metadata lo dlo k count q).base) × Numbered metadata lo dlo k count (suc q) out
