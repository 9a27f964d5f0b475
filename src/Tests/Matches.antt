-- ===== src/Tests/Matches.antt =====
-- Two nodes with the events of the tests, and a builder unit that has their multievent 1.
use lseb.Prelude.{ℕ, ◌≡◌, refl, true, [], ◌∷◌, ok}
use lseb.DataFormat.{EventHeader, Memory}
use lseb.Generator.Layout.{total}
use lseb.Accumulator.Window.{extent}
use lseb.Socket.{create}
use lseb.BuilderUnit.{Link, check_data}
use lseb.BuilderUnit.Matching.{Sender, AllReceived, check_data-matches}
use lseb.Tests.Accumulators.{built, built-IsBuilt, table-IsTable}

abbrev sender : Sender 2 3
sender = record {
  lo = 0;
  hi = 6;
  dlo = 64;
  dhi = 256;
  id = 3;
  cap = 32;
  built = built;
  is_built = built-IsBuilt;
  is_table = table-IsTable;
}

abbrev link_at : ℕ → Link
link_at base = record { conn = create 2; iov_vect = record { base = base; len = 64 } ∷ [] }

-- The pieces, as they were received.
abbrev received : Memory EventHeader
received p = record { id = 2; length = 32; flags = 3 }

pieces-AllReceived :
    AllReceived received 1 (sender ∷ sender ∷ []) (link_at 1024 ∷ link_at 2048 ∷ [])
unfolding extent total
pieces-AllReceived = (
  (record { base = 1024; len = 64 }, [], refl, refl, refl),
  ((record { base = 2048; len = 64 }, [], refl, refl, refl), tt),
)

check_data-matches_example : check_data received (link_at 1024 ∷ link_at 2048 ∷ []) ≡ ok true
check_data-matches_example =
    check_data-matches received 1 (sender ∷ sender ∷ []) (link_at 1024) (link_at 2048 ∷ [])
      pieces-AllReceived
