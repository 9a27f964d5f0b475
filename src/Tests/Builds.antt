-- ===== src/Tests/Builds.antt =====
-- A builder unit of two nodes from `connect` on.
use mathlib.Core.List.Perm
use lseb.Prelude.{ℕ, zero, suc, ◌+◌, ◌<◌, ◌≡◌, refl, arith, [], ◌∷◌, length, ok, true}
use lseb.DataFormat.{EventHeader, Memory}
use lseb.Socket as Sockets
use lseb.BuilderUnit.Rounds as Units
use lseb.Socket.{Socket, Poll, polled, register_memory, post_recv, poll_completed_recv}
use lseb.BuilderUnit.{
  BuilderUnit, Link, connect, connect_links, connect_all, run_once, read_links, read_data, post_all,
  chunks, build,
}
use lseb.BuilderUnit.Posts.{returns}
use lseb.BuilderUnit.Steps.{Room}
use lseb.BuilderUnit.Run.{AllOwned, Round}
use lseb.BuilderUnit.Rounds.{Fresh, begin, next, run_once-ends}

abbrev unit : BuilderUnit
unit = record {
  links = [];
  bulk_size = 2;
  credits = 2;
  max_fragment_size = 24;
  id = 0;
  data_ptr = 4096;
}

abbrev posted : ℕ → Link
posted base = record {
  conn = record {
    mrs = record { addr = base; length = 96 } ∷ [];
    credits = 2;
    pending_send = [];
    pending_recv = (base, 48) ∷ (base + 48, 48) ∷ [];
  };
  iov_vect = [];
}

abbrev connected : BuilderUnit
connected = record unit { links = posted 4096 ∷ posted 4192 ∷ [] }

-- `connect` posts two pieces for each node.
connect_posts : connect_all unit 2 (λ node. true) (λ p. 0) ≡ ok connected
unfolding connect_all connect_links connect post_all chunks Sockets.create register_memory post_recv
    Sockets.available_recv Sockets.post Sockets.find_mr lseb.PendingMap.insert
connect_posts = refl

abbrev headers : Memory EventHeader
headers p = record { id = 7; length = 24; flags = 0 }

-- No piece has come in the first round.
abbrev idle : ℕ → Poll
idle i = polled []

idle_round : run_once connected headers idle (λ p. 0) ≡ ok connected
unfolding run_once read_links read_data build poll_completed_recv Sockets.collect
idle_round = refl

-- In the second one each node's first piece comes.
abbrev arrived : ℕ → Poll
arrived zero = polled (record { wr_id = 4096; status = 0 } ∷ [])
arrived (suc i) = polled (record { wr_id = 4192; status = 0 } ∷ [])

room : (i : ℕ) → i < 2 → Room unit i
room i h = omega arith

run_once-ends_example :
    (connect_all unit 2 (λ node. true) (λ p. 0) ≡ ok (Units.connected unit 2 (λ p. 0)))
    × (length (Units.connected unit 2 (λ p. 0)).links ≡ 2)
    × Fresh (Units.connected unit 2 (λ p. 0)).links
    × AllOwned (Units.connected unit 2 (λ p. 0)) 0 (Units.connected unit 2 (λ p. 0)).links
    × Round connected headers arrived (run_once connected headers arrived (λ p. 0))
unfolding connect_all connect_links connect post_all chunks Sockets.create register_memory post_recv
    Sockets.available_recv Sockets.post Sockets.find_mr lseb.PendingMap.insert
run_once-ends_example =
    run_once-ends (omega arith) unit connected (λ p. 0) headers arrived (λ p. 0)
      (room 1 (omega arith), (room 0 (omega arith), tt)) refl refl (λ p. refl)
      (next connected connected headers idle (λ p. 0) begin
        (
          returns [] (4096 ∷ 4144 ∷ []) (Perm.refl _) tt,
          (returns [] (4192 ∷ 4240 ∷ []) (Perm.refl _) tt, tt),
        )
        (λ p. refl) idle_round)
      (
        returns (record { wr_id = 4096; status = 0 } ∷ []) (4144 ∷ []) (Perm.refl _) (refl, tt),
        (
          returns (record { wr_id = 4192; status = 0 } ∷ []) (4240 ∷ []) (Perm.refl _) (refl, tt),
          tt,
        ),
      )
      (λ p. refl)
