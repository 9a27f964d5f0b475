-- ===== src/ReadoutUnit/Rounds.antt =====
-- The rounds of `run` one after the other, from the start on.
use mathlib.Core.List.{Perm}
use mathlib.Core.List.Perm
use mathlib.Core.Path.{subst}
use native.Mathlib.Nat.{zero-mul}
use lseb.Prelude.{
  ℕ, ◌≤◌, ◌<◌, ◌≡◌, refl, sym, ap, ◌∙◌, arith, List, [], ◌∷◌, ◌++◌, length, drop, ok, err,
  ok-injective, >>=-eq-ok,
}
use lseb.DataFormat.{EventMetaData, Memory}
use lseb.Controller.{Controller}
use lseb.Accumulator.{Accumulator}
use lseb.Accumulator.Window.{IsTable}
use lseb.Accumulator.Invariant.{state, Runs}
use lseb.Accumulator.Undone.{undone}
use lseb.Socket.{Socket, Poll}
use lseb.ReadoutUnit.{ReadoutUnit, start, run_once, create_sequence}
use lseb.ReadoutUnit.Polls.{sent, regions, InOrder}
use lseb.ReadoutUnit.Waiting.{waiting, waiting-none}
use lseb.ReadoutUnit.Acquires.{InTime}
use lseb.ReadoutUnit.Turns.{IsCycle, create_sequence-IsCycle}
use lseb.ReadoutUnit.Serving.{Serves, Covered, Answers, calls}
use lseb.ReadoutUnit.Run.{Turn, run_once-Serves}

-- Nothing is posted yet.
abbrev pub Idle : List Socket → Type 0
Idle [] = Unit {0}
Idle (conn ∷ conns) = (conn.pending_send ≡ []) × Idle conns

pub Idle-sent : (conns : List Socket) → Idle conns → (sent conns ≡ []) × InOrder conns
Idle-sent [] h = (refl, tt)
Idle-sent (conn ∷ conns) h = rw h.0 (let (e, o) = Idle-sent conns h.1 in (e, (tt, o)))

-- What `start` begins with.
pub start-first :
    (a : Accumulator) (conns : List Socket) (id : ℕ) (ru : ReadoutUnit)
    → start a conns id ≡ ok ru
    → (ru.seq_it ≡ 0) × (ru.connection_ids ≡ conns)
unfolding start
start-first a conns id ru e =
    let (ids, _, f) = >>=-eq-ok (create_sequence id (length conns)) _ e in
    (ap (λ r. r.seq_it) (sym (ok-injective f)), ap (λ r. r.connection_ids) (sym (ok-injective f)))

-- A round that returns, from one state to the next: the clock does not go back, and the library answers with pieces
-- that are pending and takes the posts. `due` is the number of events that are due.
pub data Rounds (metadata : Memory EventMetaData) (first : ReadoutUnit) (due : ℕ)
    : ReadoutUnit → ℕ → Type 0 where
  begin : Rounds metadata first due first due
  next :
      (ru ru' : ReadoutUnit) (now later : ℕ) (dues : ℕ → ℕ) (polls : ℕ → Poll)
      → Rounds metadata first due ru now
      → InTime now (calls ru) dues later
      → Answers 0 ru.connection_ids polls
      → run_once metadata ru dues polls 0 ≡ ok ru'
      → Rounds metadata first due ru' later

-- What the readout unit is started with: an accumulator that has handed out nothing, and `n` connections, each with a
-- region that holds the data, on which nothing is pending.
pub record Starts (lo hi dlo dhi k base n : ℕ) (a : Accumulator) (conns : List Socket) (due : ℕ)
    : Type 0 where
  pub controller : Controller
  pub is_state : a ≡ state lo hi dlo dhi k controller 0 0 []
  pub runs : Runs lo hi dlo dhi k base controller 0 0 []
  pub in_time : controller.generated_events ≤ due
  pub nodes : length conns ≡ n
  pub idle : Idle conns
  pub covered : Covered dlo dhi (regions conns)

-- The readout unit with which `run` begins its loop.
abbrev pub begun : Accumulator → List Socket → ℕ → ReadoutUnit
begun a conns id = elim (start a conns id) [
  | ok ru ↦ ru
  | err e ↦ record {
    accumulator = a;
    connection_ids = conns;
    id_sequence = [];
    seq_it = 0;
    iov_to_send = [];
  }
]

module _ {metadata : Memory EventMetaData} {lo hi dlo dhi k count base n : ℕ} where
  pub start-Serves :
      (a : Accumulator) (conns : List Socket) (id due : ℕ)
      → Starts lo hi dlo dhi k base n a conns due
      → id < n
      → (ids : List ℕ) × (ru : ReadoutUnit) × (create_sequence id n ≡ ok ids)
        × (start a conns id ≡ ok ru)
        × IsCycle n ids
        × Serves metadata lo hi dlo dhi k count base n ids ru due
        × (ru.iov_to_send ≡ [])
  unfolding start
  start-Serves a conns id due s h =
      let (ids, e, cycle) = create_sequence-IsCycle id n h in
      let (none_sent, order) = Idle-sent conns s.idle in
      (
        ids,
        record {
          accumulator = a;
          connection_ids = conns;
          id_sequence = ids;
          seq_it = 0;
          iov_to_send = [];
        },
        e,
        rw (s.nodes, e),
        cycle,
        record {
          controller = s.controller;
          q = 0;
          g = 0;
          out = [];
          is_state = s.is_state;
          runs = s.runs;
          numbered = tt;
          in_time = s.in_time;
          sequence = refl;
          place = omega (arith, h);
          nodes = s.nodes;
          order = order;
          covered = s.covered;
          ahead = omega arith;
          over = tt;
          within = tt;
          cycle = 0;
          taken = omega (arith, zero-mul n);
          pieces = tt;
          split = rw (none_sent, waiting-none ids) (Perm.refl []);
        },
        refl,
      )

  pub Rounds-Serves :
      {ids : List ℕ} {first : ReadoutUnit} {due : ℕ} {ru : ReadoutUnit} {now : ℕ}
      → IsTable metadata lo hi dlo dhi k count
      → IsCycle n ids
      → Serves metadata lo hi dlo dhi k count base n ids first due
      → Rounds metadata first due ru now
      → Serves metadata lo hi dlo dhi k count base n ids ru now
  Rounds-Serves t cycle s begin = s
  Rounds-Serves {ids = ids} t cycle s (next ru ru' now later dues polls r i answers e) =
      let (ru'', f, s', _) =
        run_once-Serves t cycle base ru now dues polls later (Rounds-Serves t cycle s r) i
          answers in
      subst (λ u. Serves metadata lo hi dlo dhi k count base n ids u later)
        (ok-injective (sym f ∙ e)) s'

  -- A readout unit with an accumulator that has handed out nothing, and with a connection to each of
  -- `n` nodes on which nothing is pending and whose region holds the data: `run` begins its loop, at
  -- the first place of the sequence and with nothing to send. After any number of rounds that return
  -- the next round throws nothing and fails no assertion, as long as the clock does not go back, the
  -- library answers each poll with pieces that are pending, each once, and takes each post. The
  -- multievents that did not come back to the accumulator are then, each once, those pending on the
  -- connections and those that wait for their node. If the connection of the node whose turn it is
  -- has a credit and the node's piece is there, the round posts this piece on this connection and on
  -- no other, and otherwise it posts nothing.
  pub run_once-succeeds :
      (a : Accumulator) (conns : List Socket) (id due : ℕ) (ru : ReadoutUnit) (now : ℕ)
      (dues : ℕ → ℕ) (polls : ℕ → Poll) (last : ℕ)
      → IsTable metadata lo hi dlo dhi k count
      → Starts lo hi dlo dhi k base n a conns due
      → id < n
      → Rounds metadata (begun a conns id) due ru now
      → InTime now (calls ru) dues last
      → Answers 0 ru.connection_ids polls
      → (start a conns id ≡ ok (begun a conns id))
        × ((begun a conns id).seq_it ≡ 0)
        × ((begun a conns id).iov_to_send ≡ [])
        × ((begun a conns id).connection_ids ≡ conns)
        × (ru' : ReadoutUnit) × (run_once metadata ru dues polls 0 ≡ ok ru')
        × Perm
            (undone ru'.accumulator.iov_multievents)
            (sent ru'.connection_ids ++ waiting (drop ru'.seq_it ru'.id_sequence) ru'.iov_to_send)
        × Turn metadata ru dues polls ru'
  run_once-succeeds a conns id due ru now dues polls last t s h r i answers =
      let (ids, first, _, f, cycle, s0, none_waits) = start-Serves a conns id due s h in
      let here : begun a conns id ≡ first =
        ap
          (λ r. elim r [
            | ok ru ↦ ru
            | err e ↦ record {
              accumulator = a;
              connection_ids = conns;
              id_sequence = [];
              seq_it = 0;
              iov_to_send = [];
            }
          ])
          f in
      let begins = start-first a conns id first f in
      let s1 = subst (λ u. Serves metadata lo hi dlo dhi k count base n ids u due) (sym here) s0 in
      let (ru', g, s2, posts) =
        run_once-Serves t cycle base ru now dues polls last (Rounds-Serves t cycle s1 r) i
          answers in
      (
        f ∙ ap ok (sym here),
        ap (λ u. u.seq_it) here ∙ begins.0,
        ap (λ u. u.iov_to_send) here ∙ none_waits,
        ap (λ u. u.connection_ids) here ∙ begins.1,
        ru',
        g,
        rw (ap (λ b. undone b.iov_multievents) s2.is_state, s2.sequence) s2.split,
        posts,
      )
