-- ===== src/ReadoutUnit/Steps.antt =====
-- The steps of a round of `run`, each from one state of the invariant to the next.
use mathlib.Core.List.{append_assoc}
use mathlib.Core.List.Perm
use mathlib.Core.Path.{subst}
use lseb.Prelude.{
  ℕ, ◌+◌, ◌-◌, ◌*◌, ◌≤◌, ◌<◌, ◌≡◌, refl, sym, ◌∙◌, arith, Bool, false, List, ◌++◌, length,
  length-append, take, drop, get_elem?, some, ok,
}
use lseb.DataFormat.{EventMetaData, Iovec, Memory}
use lseb.Accumulator.{Accumulator}
use lseb.Accumulator.Window.{IsTable}
use lseb.Accumulator.Invariant.{state}
use lseb.BuilderUnit.Owned.{bases}
use lseb.Socket.{Socket, Poll, available_send}
use lseb.ReadoutUnit.{ReadoutUnit, acquire_multievents, poll_connections, release_completed}
use lseb.ReadoutUnit.Polls.{sent, length-regions, Once}
use lseb.ReadoutUnit.Waiting.{waiting}
use lseb.ReadoutUnit.Acquires.{
  InTime, InTime-later, Within-append, waiting-append, acquire_multievents-Took, fresh,
  length-fresh, Pieces-append,
}
use lseb.ReadoutUnit.Released.{release_completed-sent}
use lseb.ReadoutUnit.Turns.{IsCycle, Below-mono, Once-drop}
use lseb.ReadoutUnit.Serving.{Serves, Covered, Answers, Answers-Polled}

module _ {metadata : Memory EventMetaData} {lo hi dlo dhi k count n : ℕ} {ids : List ℕ}
    (t : IsTable metadata lo hi dlo dhi k count) (cycle : IsCycle n ids) (base : ℕ) where
  pub acquire-Serves :
      (ru : ReadoutUnit) (due seq_id : ℕ) (dues : ℕ → ℕ) (last : ℕ)
      → Serves metadata lo hi dlo dhi k count base n ids ru due
      → seq_id < n
      → InTime due (seq_id + 1 - length ru.iov_to_send) dues last
      → (a : Accumulator) × (iovs : List Iovec) × (acquire_multievents metadata
            (seq_id + 1 - length ru.iov_to_send)
            ru.accumulator
            ru.iov_to_send
            dues
          ≡ ok (a, iovs))
        × Serves metadata lo hi dlo dhi k count base n ids
            (record ru { accumulator = a; iov_to_send = iovs })
            last
  acquire-Serves ru due seq_id dues last s h i =
      let took =
        acquire_multievents-Took t base s.q s.controller s.g s.out
          (seq_id + 1 - length ru.iov_to_send) ru.iov_to_send dues last s.runs s.numbered
          (InTime-later s.controller.generated_events due _ dues last s.in_time i) in
      let size = length-append ru.iov_to_send took.new in
      let turn : (id : ℕ)
          → length ru.iov_to_send ≤ id
          → id < length ru.iov_to_send + length took.new
          → Once id (drop ru.seq_it ids) =
        λ id low high.
          Once-drop id (length ru.iov_to_send) ru.seq_it ids
            (cycle.turn id (omega (arith, took.few))) s.over low in
      (
        state lo hi dlo dhi k took.controller s.q took.g (s.out ++ fresh took.new),
        ru.iov_to_send ++ took.new,
        rw s.is_state took.gives,
        record {
          controller = took.controller;
          q = s.q;
          g = took.g;
          out = s.out ++ fresh took.new;
          is_state = refl;
          runs = took.runs;
          numbered = took.numbered;
          in_time = took.in_time;
          sequence = s.sequence;
          place = s.place;
          nodes = s.nodes;
          order = s.order;
          covered = s.covered;
          ahead = omega (arith, size, took.few, s.ahead);
          over =
              Below-mono (length ru.iov_to_send) _ (take ru.seq_it ids) (omega (arith, size))
                s.over;
          within = Within-append dlo dhi ru.iov_to_send took.new s.within took.within;
          cycle = s.cycle;
          taken =
              omega
                (arith, size, s.taken, length-append s.out (fresh took.new), length-fresh took.new);
          pieces =
              Pieces-append metadata lo dlo k count (s.cycle * n) (s.q + length s.out)
                ru.iov_to_send took.new (sym s.taken) s.pieces took.pieces;
          split = rw took.back_later (
              Perm.trans (Perm.append_right (bases took.new) s.split) (
                rw
                  (append_assoc (sent ru.connection_ids)
                    (waiting (drop ru.seq_it ids) ru.iov_to_send) (bases took.new))
                  (Perm.append_left (sent ru.connection_ids) (
                    Perm.symm
                      (waiting-append (drop ru.seq_it ids) ru.iov_to_send took.new turn)))));
        },
      )

  pub release-Serves :
      (ru : ReadoutUnit) (due seq_id : ℕ) (polls : ℕ → Poll)
      → Serves metadata lo hi dlo dhi k count base n ids ru due
      → seq_id < n
      → Answers 0 ru.connection_ids polls
      → (conns : List Socket) × (wr : List ℕ) × (avail : Bool) × (a : Accumulator) × (conn : Socket)
        × (poll_connections ru.id_sequence seq_id ru.connection_ids polls false
            ≡ ok (conns, (wr, avail)))
        × (release_completed ru.accumulator wr ≡ ok a)
        × Serves metadata lo hi dlo dhi k count base n ids
            (record ru { accumulator = a; connection_ids = conns })
            due
        × (get_elem? conns seq_id ≡ some conn)
        × (avail ≡ available_send conn)
  release-Serves ru due seq_id polls s h answers =
      let polled =
        Answers-Polled ru.connection_ids polls ids answers (rw s.nodes cycle.bounded)
          cycle.distinct in
      let (conns, wr, avail, e, order, kept, known, c, q, out, f, runs, v, left, made, same) =
        release_completed-sent t base s.controller s.q s.g s.out
          (waiting (drop ru.seq_it ids) ru.iov_to_send) ids seq_id ru.connection_ids polls s.runs
          s.numbered s.order polled s.split in
      let (conn, at, credit) = known.seen (cycle.turn seq_id h) in
      (
        conns,
        wr,
        avail,
        state lo hi dlo dhi k c q s.g out,
        conn,
        rw s.sequence e,
        rw s.is_state f,
        record {
          controller = c;
          q = q;
          g = s.g;
          out = out;
          is_state = refl;
          runs = runs;
          numbered = v;
          in_time = omega (arith, made, s.in_time);
          sequence = s.sequence;
          place = s.place;
          nodes = length-regions conns ru.connection_ids kept ∙ s.nodes;
          order = order;
          covered = subst (Covered dlo dhi) (sym kept) s.covered;
          ahead = s.ahead;
          over = s.over;
          within = s.within;
          cycle = s.cycle;
          taken = same ∙ s.taken;
          pieces = s.pieces;
          split = left;
        },
        at,
        credit,
      )
