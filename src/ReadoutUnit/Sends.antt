-- ===== src/ReadoutUnit/Sends.antt =====
-- The send of a round of `run`: the next piece goes from those that wait to those that are pending.
use mathlib.Core.List.{Perm, Nodup, perm_middle}
use mathlib.Core.List.Perm
use lseb.Prelude.{
  ℕ, ◌≡◌, refl, arith, Bool, true, List, ◌∷◌, ◌++◌, drop, get_elem?, set, none, some, ok, inl, inr,
  Exception,
}
use lseb.DataFormat.{EventMetaData, Iovec, Memory}
use lseb.Controller.{Controller}
use lseb.PendingMap.{find}
use lseb.PendingMap.Laws.{insert-IsSorted}
use lseb.Socket.{Socket, post_send, available_send}
use lseb.Socket.Posting.{Any, Holds, Refused, post_send-Posted}
use lseb.Accumulator.Window.{IsTable}
use lseb.Accumulator.Invariant.{Runs, Numbered}
use lseb.Accumulator.Undone.{undone, undone-Nodup}
use lseb.Accumulator.Disjoint.{out_few}
use lseb.ReadoutUnit.{ReadoutUnit, send}
use lseb.ReadoutUnit.Waiting.{
  waiting, stepped, Whole, Whole-set, sent-grow, not_pending, next-waiting,
}
use lseb.ReadoutUnit.Polls.{regions, regions-set, sent, InOrder, at_place}

not-Refused :
    (conn : Socket) (iov : Iovec) (x : Exception)
    → available_send conn ≡ true
    → Any (λ mr. Holds mr iov) conn.mrs
    → find iov.base conn.pending_send ≡ none
    → ¬ Refused conn.mrs conn.credits conn.pending_send iov 0 x
unfolding available_send
not-Refused conn iov x a h f (Refused.no_credits few) = ground (arith, a, few)
not-Refused conn iov x a h f (Refused.no_region n) = n h
not-Refused conn iov x a h f (Refused.post_failed z) = z refl
not-Refused conn iov x a h f (Refused.duplicate_key len old) = cc

post_send-sent :
    (conns : List Socket) (id : ℕ) (conn : Socket) (iov : Iovec) (all later : List ℕ)
    → get_elem? conns id ≡ some conn
    → InOrder conns
    → available_send conn ≡ true
    → Any (λ mr. Holds mr iov) conn.mrs
    → Nodup all
    → Perm all (sent conns ++ iov.base ∷ later)
    → (conn' : Socket) × (post_send conn iov 0 ≡ (conn', ok tt))
      × (conn'.mrs ≡ conn.mrs)
      × InOrder (set conns id conn')
      × Perm all (sent (set conns id conn') ++ later)
post_send-sent conns id conn iov all later e o a h n p =
    let s = at_place conns id conn o e in
    let new = not_pending conns id iov.base conn all later e n p in
    elim (post_send-Posted conn iov 0 s) [
      | inr (x, _, r) ↦ absurd (not-Refused conn iov x a h new r)
      | inl (m, f, i, _, _, _, _) ↦
          let (g, o') =
            sent-grow conns id iov.base conn (record conn { pending_send = m }) e i.adds
              (insert-IsSorted iov.base iov.len conn.pending_send m s i.inserts) o in
          (
            record conn { pending_send = m },
            f,
            refl,
            o',
            Perm.trans p (
                Perm.trans (perm_middle (sent conns) later)
                  (Perm.append_right later (Perm.symm g))),
          )
    ]

module _ {metadata : Memory EventMetaData} {lo hi dlo dhi k count : ℕ}
    (t : IsTable metadata lo hi dlo dhi k count) where
  -- The accumulator's multievents that did not come back are those pending on the connections and
  -- those that wait for a node of the cycle. If the next node of the cycle has a piece and a
  -- connection with a credit, a region of that connection holds the piece, the library takes the
  -- post, and the last node of a cycle finds a piece for each connection, then `send` succeeds and
  -- fails no assertion: the piece is pending, the accumulator is as before, and the multievents that
  -- did not come back are again those pending and those that wait, in this cycle or the next one.
  pub send-sent :
      (base : ℕ) (c : Controller) (q g : ℕ) (out : List (ℕ × Bool)) (ru : ReadoutUnit) (seq_id : ℕ)
      (later : List ℕ) (iov : Iovec) (conn : Socket)
      → Runs lo hi dlo dhi k base c q g out
      → Numbered metadata lo dlo k count q out
      → InOrder ru.connection_ids
      → drop ru.seq_it ru.id_sequence ≡ seq_id ∷ later
      → get_elem? ru.iov_to_send seq_id ≡ some iov
      → get_elem? ru.connection_ids seq_id ≡ some conn
      → available_send conn ≡ true
      → Any (λ mr. Holds mr iov) conn.mrs
      → Whole later ru.iov_to_send ru.connection_ids
      → Perm
          (undone out)
          (sent ru.connection_ids ++ waiting (drop ru.seq_it ru.id_sequence) ru.iov_to_send)
      → (conns : List Socket) × let ru' = stepped (record ru { connection_ids = conns }) later in
          (send ru seq_id 0 ≡ ok ru')
          × InOrder conns
          × (regions conns ≡ regions ru.connection_ids)
          × Perm
              (undone out)
              (sent conns ++ waiting (drop ru'.seq_it ru.id_sequence) ru'.iov_to_send)
          × (conn' : Socket) × (post_send conn iov 0 ≡ (conn', ok tt))
          × (conns ≡ set ru.connection_ids seq_id conn')
  unfolding send
  send-sent base c q g out ru seq_id later iov conn runs v o e f h a r w p =
      let n = undone-Nodup t q out (omega (arith, out_few t q g out runs)) v in
      let (conn', posted, mrs, o', left) =
        post_send-sent ru.connection_ids seq_id conn iov (undone out) (waiting later ru.iov_to_send)
          h o a r n (rw (e, f) at p) in
      let conns = set ru.connection_ids seq_id conn' in
      let (next, pieces) =
        next-waiting (record ru { connection_ids = conns }) seq_id later e
          (Whole-set later ru.iov_to_send ru.connection_ids seq_id conn' w) in
      (
        conns,
        (
          rw (send, f, h, posted, next),
          o',
          regions-set ru.connection_ids seq_id conn conn' h mrs,
          rw pieces left,
          conn',
          posted,
          refl,
        ),
      )
