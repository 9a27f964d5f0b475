-- ===== src/ReadoutUnit/Stall.antt =====
-- A readout unit whose first node has a number that the ring's multievents do not reach.
use mathlib.Core.List.{Perm, Permᴰ}
use mathlib.Core.List.Perm
use mathlib.Core.Path.{subst}
use mathlib.Core.Option.{some-injective}
use mathlib.Core.Logic.{∥∥₁_elim}
use native.Mathlib.Bridge.{le_prop}
use lseb.Prelude.{
  ℕ, suc, ◌+◌, ◌%◌, ◌≤◌, ◌<◌, ◌≡◌, refl, sym, ap, ◌∙◌, arith, Bool, true, false, List, [], ◌∷◌,
  ◌++◌, length, length-append, length-map, get_elem?, some, ok, ok-injective, ltb, le→ltb_false,
  ◌&&◌,
}
use lseb.DataFormat.{EventMetaData, Iovec, Memory}
use lseb.Accumulator.{Accumulator}
use lseb.Accumulator.Window.{IsTable}
use lseb.Accumulator.Disjoint.{out_few}
use lseb.Accumulator.Undone.{undone}
use lseb.BuilderUnit.Owned.{bases}
use lseb.Socket.{Socket, Poll}
use lseb.ReadoutUnit.{ReadoutUnit, start, run_once, poll_connections}
use lseb.ReadoutUnit.Polls.{sent, poll_connections-sent}
use lseb.ReadoutUnit.Waiting.{waiting, waiting-none}
use lseb.ReadoutUnit.Acquires.{InTime, waiting-append}
use lseb.ReadoutUnit.Turns.{IsCycle, Below}
use lseb.ReadoutUnit.Serving.{Serves, Answers, Answers-Polled, calls, calls_for}
use lseb.ReadoutUnit.Steps.{acquire-Serves, release-Serves}
use lseb.ReadoutUnit.Run.{run_once-calls}
use lseb.ReadoutUnit.Rounds.{
  Rounds, begin, next, Starts, start-Serves, start-first, Idle-sent, Rounds-Serves,
}
use lseb.ReadoutUnit.Sequence.{create_sequence-rotates}

length-le-Perm : {xs ys : List ℕ} → Perm xs ys → length xs ≤ length ys
length-le-Perm p = ∥∥₁_elim p le_prop go
  where
    go : {xs ys : List ℕ} → Permᴰ xs ys → length xs ≤ length ys
    go Permᴰ.nil = omega arith
    go (Permᴰ.cons e p) = omega (arith, go p)
    go (Permᴰ.swap e f) = omega arith
    go (Permᴰ.trans p q) = omega (arith, go p, go q)

length-undone : (out : List (ℕ × Bool)) → length (undone out) ≤ length out
length-undone [] = omega arith
length-undone ((p, true) ∷ out) = omega (arith, length-undone out)
length-undone ((p, false) ∷ out) = omega (arith, length-undone out)

left_none : (wr rest : List ℕ) → Perm [] (wr ++ rest) → rest ≡ []
left_none wr [] p = refl
left_none wr (id ∷ rest) p =
    absurd (omega (arith, length-le-Perm (Perm.symm p), length-append wr (id ∷ rest)))

neither : (b : Bool) → (b && false) ≡ false
neither true = refl
neither false = refl

turn_lt :
    {n : ℕ} (ids : List ℕ) (seq_id : ℕ) → get_elem? ids 0 ≡ some seq_id → Below n ids → seq_id < n
turn_lt [] seq_id e b = cc
turn_lt (j ∷ ids) seq_id e b = omega (arith, some-injective _ _ e, b.0)

module _ {metadata : Memory EventMetaData} {lo hi dlo dhi k count base n : ℕ} {ids : List ℕ}
    (t : IsTable metadata lo hi dlo dhi k count) (cycle : IsCycle n ids) where
  -- At the begin of a cycle every piece waits, so that there are fewer of them than the ring has multievents.
  pieces_few :
      (ru : ReadoutUnit) (due : ℕ)
      → Serves metadata lo hi dlo dhi k count base n ids ru due
      → ru.seq_it ≡ 0
      → length ru.iov_to_send < count
  pieces_few ru due s e =
      let all =
        waiting-append ids [] ru.iov_to_send
          (λ id low high. cycle.turn id (omega (arith, s.ahead))) in
      omega (
        arith,
        length-le-Perm (Perm.symm all),
        length-map {0, 0} (λ (v : Iovec). v.base) ru.iov_to_send,
        ap length (waiting-none ids),
        length-append (waiting ids []) (bases ru.iov_to_send),
        length-append (sent ru.connection_ids) (waiting ids ru.iov_to_send),
        length-le-Perm (Perm.symm (rw e at s.split)),
        length-undone s.out,
        out_few t s.q s.g s.out s.runs,
      )

  -- What the polls of a round in which nothing is pending leave pending: nothing.
  polls_nothing :
      (ru : ReadoutUnit) (due seq_id : ℕ) (polls : ℕ → Poll) (conns : List Socket) (wr : List ℕ)
      (avail : Bool)
      → Serves metadata lo hi dlo dhi k count base n ids ru due
      → sent ru.connection_ids ≡ []
      → Answers 0 ru.connection_ids polls
      → poll_connections ru.id_sequence seq_id ru.connection_ids polls false
        ≡ ok (conns, (wr, avail))
      → sent conns ≡ []
  polls_nothing ru due seq_id polls conns wr avail s none_sent answers e =
      let polled =
        Answers-Polled ru.connection_ids polls ids answers (rw s.nodes cycle.bounded)
          cycle.distinct in
      let (conns', wr', avail', f, p, _, _, _) =
        poll_connections-sent ids seq_id ru.connection_ids polls false s.order polled in
      let same = ok-injective (
        sym f
        ∙ ap (λ l. poll_connections l seq_id ru.connection_ids polls false) (sym s.sequence)
        ∙ e) in
      ap (λ r. sent r.0) (sym same) ∙ left_none wr' (sent conns') (rw none_sent at p)

  module _ (seq_id : ℕ) (first_turn : get_elem? ids 0 ≡ some seq_id)
      (far : count ≤ suc seq_id) where
    waits :
        (ru ru' : ReadoutUnit) (due : ℕ) (dues : ℕ → ℕ) (polls : ℕ → Poll) (last : ℕ)
        → Serves metadata lo hi dlo dhi k count base n ids ru due
        → ru.seq_it ≡ 0
        → sent ru.connection_ids ≡ []
        → InTime due (calls ru) dues last
        → Answers 0 ru.connection_ids polls
        → run_once metadata ru dues polls 0 ≡ ok ru'
        → (ru'.seq_it ≡ 0) × (sent ru'.connection_ids ≡ [])
    waits ru ru' due dues polls last s at_first none_sent i answers e =
        let turn : get_elem? ru.id_sequence ru.seq_it ≡ some seq_id =
          (λ j. get_elem? (s.sequence j) (at_first j)) ∙ first_turn in
        let below = turn_lt ids seq_id first_turn cycle.bounded in
        let (a, iovs, f, s1) =
          acquire-Serves t cycle base ru due seq_id dues last s below
            (subst (λ o. InTime due (calls_for o (length ru.iov_to_send)) dues last) turn i) in
        let (conns, wr, avail, a', conn, g, h, s2, _, _) =
          release-Serves t cycle base (record ru { accumulator = a; iov_to_send = iovs }) last
            seq_id polls s1 below answers in
        let few = pieces_few _ last s2 at_first in
        let no_send : (avail && ltb seq_id (length iovs)) ≡ false =
          ap (λ b. avail && b) (le→ltb_false seq_id (length iovs) (omega (arith, few, far)))
          ∙ neither avail in
        let same_turn = record ru {
          accumulator = a';
          connection_ids = conns;
          iov_to_send = iovs;
        } in
        let round : run_once metadata ru dues polls 0 ≡ ok same_turn =
          run_once-calls metadata ru dues polls seq_id a a' iovs conns wr avail turn f g h
          ∙ rw no_send in
        let done = ok-injective (sym round ∙ e) in
        (
          ap (λ r. r.seq_it) (sym done) ∙ at_first,
          ap (λ r. sent r.connection_ids) (sym done)
              ∙ polls_nothing ru due seq_id polls conns wr avail s none_sent answers g,
        )

    waits_on :
        {first : ReadoutUnit} {due : ℕ} {ru : ReadoutUnit} {now : ℕ}
        → Serves metadata lo hi dlo dhi k count base n ids first due
        → first.seq_it ≡ 0
        → sent first.connection_ids ≡ []
        → Rounds metadata first due ru now
        → (ru.seq_it ≡ 0) × (sent ru.connection_ids ≡ [])
    waits_on s e f begin = (e, f)
    waits_on s e f (next ru ru' now later dues polls r i answers g) =
        let (e', f') = waits_on s e f r in
        waits ru ru' now dues polls later (Rounds-Serves t cycle s r) e' f' i answers g

module _ {metadata : Memory EventMetaData} {lo hi dlo dhi k count base n : ℕ} where
  -- If the number of the node behind the readout unit's own, round the ring of nodes, is at least
  -- the ring's multievents less one, then the readout unit never sends: after any number of rounds
  -- of `run` its first turn is not over and nothing is pending on a connection.
  pub never_sends :
      (a : Accumulator) (conns : List Socket) (id due : ℕ) (first ru : ReadoutUnit) (now : ℕ)
      → IsTable metadata lo hi dlo dhi k count
      → Starts lo hi dlo dhi k base n a conns due
      → id < n
      → count ≤ (id + 1) % n + 1
      → start a conns id ≡ ok first
      → Rounds metadata first due ru now
      → (ru.seq_it ≡ 0) × (sent ru.connection_ids ≡ [])
  never_sends a conns id due first ru now t s h far e r =
      let some_nodes : 0 < n = omega (arith, h) in
      let next_node : (id + 1 + 0) % n ≡ (id + 1) % n = ap (λ m. m % n) (omega arith) in
      let (ids, started, made, f, cycle, s0, _) = start-Serves a conns id due s h in
      let (ids', made', _, turn) = create_sequence-rotates id n 0 h some_nodes in
      let first_turn : get_elem? ids 0 ≡ some ((id + 1 + 0) % n) =
        ap (λ l. get_elem? l 0) (ok-injective (sym made ∙ made')) ∙ turn in
      let none_sent = (Idle-sent conns s.idle).0 in
      let (at_first, nothing_sent) = start-first a conns id first e in
      waits_on t cycle ((id + 1 + 0) % n) first_turn (omega (arith, far, next_node))
        (subst (λ u. Serves metadata lo hi dlo dhi k count base n ids u due)
          (ok-injective (sym f ∙ e)) s0)
        at_first (ap sent nothing_sent ∙ none_sent) r
