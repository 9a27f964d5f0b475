-- ===== src/ReadoutUnit/Run.antt =====
-- A round of `run` as a whole.
use mathlib.Core.List.{Perm}
use mathlib.Core.Path.{subst}
use lseb.Prelude.{
  ℕ, ◌+◌, ◌-◌, ◌<◌, ◌≡◌, refl, sym, ap, ◌∙◌, arith, Bool, true, false, ◌&&◌, List, ◌∷◌, ◌++◌,
  length, drop, get_elem?, set, some, ok, inl, inr, ◌⊎◌, ltb, ltb→lt, Bool-cases, if◌then◌else◌,
}
use lseb.DataFormat.{EventMetaData, Iovec, Memory}
use lseb.Accumulator.Window.{IsTable}
use lseb.Accumulator.Undone.{undone}
use lseb.Socket.{Socket, Poll, available_send, post_send}
use lseb.Accumulator.{Accumulator}
use lseb.ReadoutUnit.{
  ReadoutUnit, acquire_multievents, poll_connections, release_completed, send, run_once,
}
use lseb.ReadoutUnit.Polls.{sent}
use lseb.ReadoutUnit.Waiting.{waiting, stepped}
use lseb.ReadoutUnit.Acquires.{InTime}
use lseb.ReadoutUnit.Sends.{send-sent}
use lseb.ReadoutUnit.Turns.{IsCycle, at_turn, Below-drop}
use lseb.ReadoutUnit.Serving.{Serves, Covered-Holds, Answers, piece_at, calls, calls_for}
use lseb.ReadoutUnit.Stepped.{stepped-keeps, last-Whole, stepped-Serves}
use lseb.ReadoutUnit.Steps.{acquire-Serves, release-Serves}

-- What a round does, from `ru` to `ru'`: it takes the multievents that it lacks for the node whose turn it is, polls all
-- connections and releases what was sent. If that node's connection has a credit and its piece is there, it posts
-- this piece, which stands in the node's place, on this connection and on no other; otherwise it posts nothing and
-- the turn stays.
abbrev pub Turn : Memory EventMetaData → ReadoutUnit → (ℕ → ℕ) → (ℕ → Poll) → ReadoutUnit → Type 0
Turn metadata ru dues polls ru' =
    (seq_id : ℕ) × (a : Accumulator) × (iovs : List Iovec) × (conns : List Socket) × (wr : List ℕ)
    × (avail : Bool) × (conn : Socket) × (get_elem? ru.id_sequence ru.seq_it ≡ some seq_id)
    × (acquire_multievents metadata (seq_id + 1 - length ru.iov_to_send) ru.accumulator
          ru.iov_to_send dues
        ≡ ok (a, iovs))
    × (poll_connections ru.id_sequence seq_id ru.connection_ids polls false
        ≡ ok (conns, (wr, avail)))
    × (release_completed a wr ≡ ok ru'.accumulator)
    × (get_elem? conns seq_id ≡ some conn)
    × ((((available_send conn && ltb seq_id (length iovs)) ≡ false)
          × (ru'.connection_ids ≡ conns)
          × (ru'.iov_to_send ≡ iovs)
          × (ru'.seq_it ≡ ru.seq_it))
        ⊎ (((available_send conn && ltb seq_id (length iovs)) ≡ true)
            × (iov : Iovec) × (conn' : Socket) × (get_elem? iovs seq_id ≡ some iov)
            × (post_send conn iov 0 ≡ (conn', ok tt))
            × (ru'.connection_ids ≡ set conns seq_id conn')))

both : (a b : Bool) → (a && b) ≡ true → (a ≡ true) × (b ≡ true)
both true b e = (refl, e)
both false b e = cc

-- A round whose calls succeed, up to the send.
pub run_once-calls :
    (metadata : Memory EventMetaData) (ru : ReadoutUnit) (dues : ℕ → ℕ) (polls : ℕ → Poll)
    (seq_id : ℕ) (a a' : Accumulator) (iovs : List Iovec) (conns : List Socket) (wr : List ℕ)
    (avail : Bool)
    → get_elem? ru.id_sequence ru.seq_it ≡ some seq_id
    → acquire_multievents metadata
        (seq_id + 1 - length ru.iov_to_send)
        ru.accumulator
        ru.iov_to_send
        dues
      ≡ ok (a, iovs)
    → poll_connections ru.id_sequence seq_id ru.connection_ids polls false ≡ ok (conns, (wr, avail))
    → release_completed a wr ≡ ok a'
    → let ru' = record ru { accumulator = a'; connection_ids = conns; iov_to_send = iovs } in
      run_once metadata ru dues polls 0
      ≡ (if avail && ltb seq_id (length iovs) then send ru' seq_id 0 else ok ru')
unfolding run_once
run_once-calls metadata ru dues polls seq_id a a' iovs conns wr avail h e f g =
    rw (run_once, h, e, f, g)

module _ {metadata : Memory EventMetaData} {lo hi dlo dhi k count n : ℕ} {ids : List ℕ}
    (t : IsTable metadata lo hi dlo dhi k count) (cycle : IsCycle n ids) (base : ℕ) where
  send-Serves :
      (ru : ReadoutUnit) (due seq_id : ℕ) (later : List ℕ) (conn : Socket)
      → Serves metadata lo hi dlo dhi k count base n ids ru due
      → drop ru.seq_it ids ≡ seq_id ∷ later
      → seq_id < length ru.iov_to_send
      → get_elem? ru.connection_ids seq_id ≡ some conn
      → available_send conn ≡ true
      → (ru' : ReadoutUnit) × (send ru seq_id 0 ≡ ok ru')
        × Serves metadata lo hi dlo dhi k count base n ids ru' due
        × (ru'.accumulator ≡ ru.accumulator)
        × (iov : Iovec) × (conn' : Socket) × (get_elem? ru.iov_to_send seq_id ≡ some iov)
        × (post_send conn iov 0 ≡ (conn', ok tt))
        × (ru'.connection_ids ≡ set ru.connection_ids seq_id conn')
  send-Serves ru due seq_id later conn s e h f a =
      let (iov, at, low, high) = piece_at dlo dhi seq_id ru.iov_to_send h s.within in
      let here = ap (drop ru.seq_it) s.sequence in
      let whole =
        last-Whole n ru.seq_it seq_id ids later ru.iov_to_send ru.connection_ids cycle s.nodes
          s.ahead e h s.over in
      let (conns, (g, o, r, p, conn', posted, set_at)) =
        send-sent t base s.controller s.q s.g s.out ru seq_id later iov conn s.runs s.numbered
          s.order (here ∙ e) at f a
          (Covered-Holds dlo dhi seq_id iov ru.connection_ids conn low high f s.covered) whole
          (rw s.sequence s.split) in
      (
        stepped (record ru { connection_ids = conns }) later,
        g,
        stepped-Serves cycle base ru due seq_id later conns s e h whole o r (
            subst
              (λ l.
                let ru' = stepped (record ru { connection_ids = conns }) later in
                Perm (undone s.out) (sent conns ++ waiting (drop ru'.seq_it l) ru'.iov_to_send))
              s.sequence p),
        (stepped-keeps (record ru { connection_ids = conns }) later).1,
        iov,
        conn',
        at,
        posted,
        (stepped-keeps (record ru { connection_ids = conns }) later).0 ∙ set_at,
      )

  -- Between two rounds the multievents that did not come back are those pending on the connections
  -- and those that wait for their node. If the clock does not go back, the library answers each poll
  -- with pieces that are pending, each once, and takes a post, then a round of `run` throws nothing
  -- and fails no assertion, that of the end of a cycle included, and it is the same again after it.
  -- If the connection of the node whose turn it is has a credit and the node's piece is there, the
  -- round posts this piece on this connection and on no other, and otherwise it posts nothing.
  pub run_once-Serves :
      (ru : ReadoutUnit) (due : ℕ) (dues : ℕ → ℕ) (polls : ℕ → Poll) (last : ℕ)
      → Serves metadata lo hi dlo dhi k count base n ids ru due
      → InTime due (calls ru) dues last
      → Answers 0 ru.connection_ids polls
      → (ru' : ReadoutUnit) × (run_once metadata ru dues polls 0 ≡ ok ru')
        × Serves metadata lo hi dlo dhi k count base n ids ru' last
        × Turn metadata ru dues polls ru'
  run_once-Serves ru due dues polls last s i answers =
      let (seq_id, later, here, rest) =
        at_turn ru.seq_it ids (omega (arith, s.place, cycle.size)) in
      let turn = ap (λ l. get_elem? l ru.seq_it) s.sequence ∙ here in
      let known = (Below-drop n ru.seq_it ids cycle.bounded) in
      let below = rw rest at known in
      let (a, iovs, e, s1) =
        acquire-Serves t cycle base ru due seq_id dues last s below.0
          (subst (λ o. InTime due (calls_for o (length ru.iov_to_send)) dues last) turn i) in
      let (conns, wr, avail, a', conn, f, g, s2, at, credit) =
        release-Serves t cycle base (record ru { accumulator = a; iov_to_send = iovs }) last seq_id
          polls s1 below.0 answers in
      let ru' = record ru { accumulator = a'; connection_ids = conns; iov_to_send = iovs } in
      let calls_done =
        run_once-calls metadata ru dues polls seq_id a a' iovs conns wr avail turn e f g in
      elim (Bool-cases (avail && ltb seq_id (length iovs))) [
        | inl go ↦
            let (credit_left, acquired) = both avail (ltb seq_id (length iovs)) go in
            let (ru'', h, s3, kept, iov, conn', place, posted, set_at) =
              send-Serves ru' last seq_id later conn s2 rest (ltb→lt seq_id (length iovs) acquired)
                at (sym credit ∙ credit_left) in
            (
              ru'',
              calls_done ∙ rw go h,
              s3,
              (
                seq_id,
                a,
                iovs,
                conns,
                wr,
                avail,
                conn,
                turn,
                e,
                f,
                g ∙ ap ok (sym kept),
                at,
                inr (
                  ap (λ b. b && ltb seq_id (length iovs)) (sym credit) ∙ go,
                  iov,
                  conn',
                  place,
                  posted,
                  set_at,
                ),
              ),
            )
        | inr wait ↦ (
          ru',
          calls_done ∙ rw wait,
          s2,
          (
            seq_id,
            a,
            iovs,
            conns,
            wr,
            avail,
            conn,
            turn,
            e,
            f,
            g,
            at,
            inl (ap (λ b. b && ltb seq_id (length iovs)) (sym credit) ∙ wait, refl, refl, refl),
          ),
        )
      ]
