-- ===== src/Tests/BuilderUnits.antt =====
-- The builder unit with two nodes, two pieces of 48 bytes for each.
use mathlib.Core.List.Perm
use lseb.Prelude.{ℕ, ◌+◌, ◌<◌, ◌^◌, ◌≡◌, refl, arith, List, [], ◌∷◌, length, ok, ◌⊎◌, true, false}
use lseb.DataFormat.{Iovec, EventHeader, Memory}
use lseb.Socket.{Poll, polled}
use lseb.BuilderUnit.{
  BuilderUnit, Link, read_data, release_data, check_data, run_once, iovec_length, sum_from,
}
use lseb.Socket.Polling.{ArePending}
use lseb.BuilderUnit.Owned.{Owned, bases}
use lseb.BuilderUnit.Posts.{Returns, returns}
use lseb.BuilderUnit.Steps.{area, Room, read_data-Owned, release_data-Owned}
use lseb.BuilderUnit.Checking.{All, Starts, check_data-Starts}
use lseb.BuilderUnit.Run.{Round, run_once-Round}

-- Two pieces of two gigabytes have no length.
length_wraps :
    iovec_length (record { base = 0; len = 2 ^ 31 } ∷ record { base = 0; len = 2 ^ 31 } ∷ []) ≡ 0
unfolding iovec_length sum_from
length_wraps = refl

-- The node has received its second piece, and the first is posted.
abbrev link_at : ℕ → Link
link_at base = record {
  conn = record {
    mrs = record { addr = base; length = 96 } ∷ [];
    credits = 2;
    pending_send = [];
    pending_recv = (base, 48) ∷ [];
  };
  iov_vect = record { base = base + 48; len = 48 } ∷ [];
}

abbrev unit : BuilderUnit
unit = record {
  links = link_at 4096 ∷ link_at 4192 ∷ [];
  bulk_size = 2;
  credits = 2;
  max_fragment_size = 24;
  id = 0;
  data_ptr = 4096;
}

room : (i : ℕ) → i < 2 → Room unit i
room i h = omega arith

first_link : Owned (area unit 0) (link_at 4096)
first_link = record {
  sorted = (tt, tt);
  shared = Perm.refl _;
  counted = refl;
  credits_at = refl;
  region = refl;
}

second_link : Owned (area unit 1) (link_at 4192)
second_link = record {
  sorted = (tt, tt);
  shared = Perm.refl _;
  counted = refl;
  credits_at = refl;
  region = refl;
}

-- The first piece comes back too.
abbrev poll : Poll
poll = polled (record { wr_id = 4096; status = 0 } ∷ [])

poll-Returns : Returns ((4096, 48) ∷ []) poll
poll-Returns = returns (record { wr_id = 4096; status = 0 } ∷ []) [] (Perm.refl _) (refl, tt)

read_data-Owned_example :
    (link' : Link) × (iovs : List Iovec) × (read_data (link_at 4096) poll ≡ ok (link', length iovs))
    × (link'.iov_vect ≡ record { base = 4144; len = 48 } ∷ iovs)
    × (bases iovs ≡ 4096 ∷ [])
    × ArePending ((4096, 48) ∷ []) iovs
    × Owned (area unit 0) link'
read_data-Owned_example = read_data-Owned (link_at 4096) first_link poll poll-Returns

release_data-Owned_example :
    (link' : Link) × (release_data unit (link_at 4096) 1 (λ p. 0)
      ≡ ok (link', iovec_length (record { base = 4144; len = 48 } ∷ [])))
    × (link'.iov_vect ≡ [])
    × Owned (area unit 0) link'
release_data-Owned_example =
    release_data-Owned unit 0 (room 0 (omega arith)) (link_at 4096) 1 (λ p. 0) first_link
      (omega arith) (λ p. refl)

-- Event 7 stands everywhere.
abbrev headers : Memory EventHeader
headers p = record { id = 7; length = 24; flags = 0 }

check_data-Starts_example :
    ((check_data headers (link_at 4096 ∷ link_at 4192 ∷ []) ≡ ok true)
      × (first_evt_id : ℕ) × All (Starts headers first_evt_id) (link_at 4096 ∷ link_at 4192 ∷ []))
    ⊎ ((check_data headers (link_at 4096 ∷ link_at 4192 ∷ []) ≡ ok false)
        × ((first_evt_id : ℕ)
            → ¬ All (Starts headers first_evt_id) (link_at 4096 ∷ link_at 4192 ∷ [])))
check_data-Starts_example = check_data-Starts headers (link_at 4096) (link_at 4192 ∷ []) (
  (record { base = 4144; len = 48 }, [], refl, refl),
  ((record { base = 4240; len = 48 }, [], refl, refl), tt),
)

-- Nothing new has come, and a piece of each node is built and posted again.
run_once-Round_example :
    Round unit headers (λ i. polled []) (run_once unit headers (λ i. polled []) (λ p. 0))
run_once-Round_example =
    run_once-Round unit headers (λ i. polled []) (λ p. 0) (λ p. refl) refl refl (omega arith)
      ((room 0 (omega arith), first_link), ((room 1 (omega arith), second_link), tt))
      (returns [] (4096 ∷ []) (Perm.refl _) tt, (returns [] (4192 ∷ []) (Perm.refl _) tt, tt))
