-- ===== src/ReadoutUnit/Released.antt =====
-- A round of `run` gives back to the accumulator what was sent.
use mathlib.Core.List.{Perm, append_assoc}
use mathlib.Core.List.Perm
use lseb.Prelude.{◌+◌, length, ℕ, ◌≡◌, refl, Bool, false, List, [], ◌∷◌, ◌++◌, ok}
use lseb.DataFormat.{EventMetaData, Memory}
use lseb.Controller.{Controller}
use lseb.Socket.{Socket, Poll}
use lseb.Accumulator.Window.{IsTable}
use lseb.Accumulator.Invariant.{state, Runs, Numbered}
use lseb.Accumulator.Undone.{undone, release_multievents-undone}
use lseb.ReadoutUnit.{poll_connections, release_completed}
use lseb.ReadoutUnit.Polls.{Known, regions, sent, InOrder, Polled, poll_connections-sent}

released :
    {metadata : Memory EventMetaData} {lo hi dlo dhi k count : ℕ}
    (t : IsTable metadata lo hi dlo dhi k count) (base : ℕ) (c : Controller) (q g : ℕ)
    (out : List (ℕ × Bool))
    → Runs lo hi dlo dhi k base c q g out
    → Numbered metadata lo dlo k count q out
    → (wr rest : List ℕ) → Perm (undone out) (wr ++ rest)
    → (c' : Controller) × (q' : ℕ) × (out' : List (ℕ × Bool)) × (release_completed
          (state lo hi dlo dhi k c q g out)
          wr
        ≡ ok (state lo hi dlo dhi k c' q' g out'))
      × Runs lo hi dlo dhi k base c' q' g out'
      × Numbered metadata lo dlo k count q' out'
      × Perm (undone out') rest
      × (c'.generated_events ≡ c.generated_events)
      × (q' + length out' ≡ q + length out)
unfolding release_completed
released t base c q g out runs v [] rest p = (c, q, out, refl, runs, v, p, refl, refl)
released t base c q g out runs v (a ∷ wr) rest p =
    release_multievents-undone t base c q g out (a ∷ wr) rest runs v p

-- The accumulator's multievents that did not come back are those pending on the connections and
-- those of `waiting`. If the library answers the polls of a round with pieces that are pending, each
-- once, then the polls and the release of what they gave fail no assertion, and it is the same again
-- with the multievents that are still pending. The accumulator stays in the invariant.
pub release_completed-sent :
    {metadata : Memory EventMetaData} {lo hi dlo dhi k count : ℕ}
    (t : IsTable metadata lo hi dlo dhi k count) (base : ℕ) (c : Controller) (q g : ℕ)
    (out : List (ℕ × Bool)) (waiting : List ℕ) (ids : List ℕ) (seq_id : ℕ) (conns : List Socket)
    (polls : ℕ → Poll)
    → Runs lo hi dlo dhi k base c q g out
    → Numbered metadata lo dlo k count q out
    → InOrder conns
    → Polled conns polls ids
    → Perm (undone out) (sent conns ++ waiting)
    → (conns' : List Socket) × (wr : List ℕ) × (avail : Bool) × (poll_connections ids seq_id conns
          polls false
        ≡ ok (conns', (wr, avail)))
      × InOrder conns'
      × (regions conns' ≡ regions conns)
      × Known seq_id ids conns conns' false avail
      × (c' : Controller) × (q' : ℕ) × (out' : List (ℕ × Bool)) × (release_completed
            (state lo hi dlo dhi k c q g out)
            wr
          ≡ ok (state lo hi dlo dhi k c' q' g out'))
      × Runs lo hi dlo dhi k base c' q' g out'
      × Numbered metadata lo dlo k count q' out'
      × Perm (undone out') (sent conns' ++ waiting)
      × (c'.generated_events ≡ c.generated_events)
      × (q' + length out' ≡ q + length out)
release_completed-sent t base c q g out waiting ids seq_id conns polls runs v o p w =
    let (conns', wr, avail, e, taken, o', kept, known) =
      poll_connections-sent ids seq_id conns polls false o p in
    let parts = Perm.trans w (
      Perm.trans (Perm.append_right waiting taken)
        (rw (append_assoc wr (sent conns') waiting) (Perm.refl _))) in
    let (c', q', out', f, runs', v', left, made, same) =
      released t base c q g out runs v wr (sent conns' ++ waiting) parts in
    (conns', wr, avail, e, o', kept, known, c', q', out', f, runs', v', left, made, same)
