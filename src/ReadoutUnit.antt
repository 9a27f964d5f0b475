-- ===== src/ReadoutUnit.antt =====
-- ru/readout_unit.cpp: takes multievents from the accumulator and sends one to each builder unit in turn;
-- and create_sequence of common/utility.h, the order of the builder units. The sockets stand in the order
-- of the nodes that they are connected to.
pub mod Sequence
pub mod Connecting
pub mod Rows
pub mod Retries
pub mod Polls
pub mod Released
pub mod Waiting
pub mod Sends
pub mod Turns
pub mod Acquires
pub mod Serving
pub mod Steps
pub mod Stepped
pub mod Run
pub mod Rounds
pub mod Stall
use lseb.Prelude.{
  ℕ, zero, suc, ◌+◌, Bool, true, false, ◌&&◌, Result, ok, err, thrown, undefined, Exception, assert,
  ◌>>=◌, ◌>>◌, ltb, leb, ◌==◌, ◌-◌, if◌then◌else◌, List, [], ◌∷◌, ◌++◌, length, take, drop,
  get_elem?, set, Option, none, some, map,
}
use lseb.DataFormat.{EventMetaData, Iovec, Memory}
use lseb.Accumulator.{Accumulator, get_multievent, release_multievents}
use lseb.Socket.{Socket, Poll, available_send, poll_completed_send, post_send}
use lseb.BuilderUnit.{lift}

-- `std::iota`: the numbers from `first` on.
unfoldable pub iota : ℕ → ℕ → List ℕ
iota first zero = []
iota first (suc n) = first ∷ iota (suc first) n

-- A rotation by more than there are elements is undefined.
unfoldable pub create_sequence : ℕ → ℕ → Result (List ℕ)
create_sequence id total =
    let first_id = if id + 1 == total then 0 else id + 1 in
    let sequence = iota 0 total in
    if leb first_id total
    then ok (drop first_id sequence ++ take first_id sequence)
    else err undefined

-- The readout unit with the local variables of `run`.
pub record ReadoutUnit : Type 0 where
  pub accumulator : Accumulator
  pub connection_ids : List Socket
  pub id_sequence : List ℕ
  pub seq_it : ℕ
  pub iov_to_send : List Iovec

-- The state before the loop of `run`.
unfoldable pub start : Accumulator → List Socket → ℕ → Result ReadoutUnit
start accumulator connection_ids id = do
  id_sequence ← create_sequence id (length connection_ids)
  ok (record {
    accumulator = accumulator;
    connection_ids = connection_ids;
    id_sequence = id_sequence;
    seq_it = 0;
    iov_to_send = [];
  })

-- Takes up to `n` multievents; `dues` are the events that are due at each of the calls.
unfoldable pub acquire_multievents :
    Memory EventMetaData
    → ℕ
    → Accumulator
    → List Iovec
    → (ℕ → ℕ)
    → Result (Accumulator × List Iovec)
acquire_multievents metadata zero a iovs dues = ok (a, iovs)
acquire_multievents metadata (suc n) a iovs dues = do
  (a', p) ← get_multievent metadata a (dues n)
  elim p [
    | none ↦ ok (a', iovs)
    | some iov ↦ acquire_multievents metadata n a' (iovs ++ iov ∷ []) dues
  ]

-- The loop over the connections: the addresses that were sent, and whether the connection of `seq_id` has a
-- credit. `at` throws for a node without a connection.
unfoldable pub poll_connections :
    List ℕ → ℕ → List Socket → (ℕ → Poll) → Bool → Result (List Socket × (List ℕ × Bool))
poll_connections [] seq_id conns polls conn_avail = ok (conns, ([], conn_avail))
poll_connections (id ∷ ids) seq_id conns polls conn_avail = elim (get_elem? conns id) [
  | none ↦ err (thrown Exception.unknown_key)
  | some conn ↦ do
    (conn', completed_wr) ← lift (poll_completed_send conn (polls id))
    let avail = if seq_id == id then available_send conn' else conn_avail
    (conns', (wr_to_release, avail')) ← poll_connections ids seq_id (set conns id conn') polls avail
    ok (conns', (map (λ v. v.base) completed_wr ++ wr_to_release, avail'))
]

unfoldable pub release_completed : Accumulator → List ℕ → Result Accumulator
release_completed a [] = ok a
release_completed a (addr ∷ addrs) = release_multievents a (addr ∷ addrs)

-- Goes on to the next builder unit, or to the first one at the end of a cycle.
unfoldable pub next_in_sequence : ReadoutUnit → Result ReadoutUnit
next_in_sequence ru =
    if ru.seq_it + 1 == length ru.id_sequence
    then (do
      assert (length ru.iov_to_send == length ru.connection_ids)
      ok (record ru { seq_it = 0; iov_to_send = [] }))
    else ok (record ru { seq_it = ru.seq_it + 1 })

-- Sends the multievent for node `seq_id`. `ret` is what the library answers to the post.
unfoldable pub send : ReadoutUnit → ℕ → ℕ → Result ReadoutUnit
send ru seq_id ret = elim (get_elem? ru.iov_to_send seq_id) [
  | none ↦ err undefined
  | some iov ↦ elim (get_elem? ru.connection_ids seq_id) [
    | none ↦ err (thrown Exception.unknown_key)
    | some conn ↦ do
      (conn', _) ← lift (post_send conn iov ret)
      next_in_sequence (record ru { connection_ids = set ru.connection_ids seq_id conn' })
  ]
]

-- One round of `run`, without its clocks and its log.
unfoldable pub run_once :
    Memory EventMetaData → ReadoutUnit → (ℕ → ℕ) → (ℕ → Poll) → ℕ → Result ReadoutUnit
run_once metadata ru dues polls ret = elim (get_elem? ru.id_sequence ru.seq_it) [
  | none ↦ err undefined
  | some seq_id ↦ do
    (a, iovs) ←
        acquire_multievents metadata (seq_id + 1 - length ru.iov_to_send) ru.accumulator
          ru.iov_to_send dues
    (conns, (wr_to_release, conn_avail)) ←
        poll_connections ru.id_sequence seq_id ru.connection_ids polls false
    a' ← release_completed a wr_to_release
    let ru' = record ru { accumulator = a'; connection_ids = conns; iov_to_send = iovs }
    if conn_avail && ltb seq_id (length iovs) then send ru' seq_id ret else ok ru'
]
