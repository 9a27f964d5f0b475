-- ===== src/ReadoutUnit/Stepped.antt =====
-- The end of a turn: the next node has its turn, or the first one again.
use mathlib.Core.List.{Perm}
use mathlib.Core.Path.{subst}
use native.Mathlib.Nat.{suc-mul}
use lseb.Prelude.{
  ℕ, zero, suc, ◌+◌, ◌≤◌, ◌<◌, ◌≡◌, refl, sym, ◌∙◌, arith, List, [], ◌∷◌, ◌++◌, length, take, drop,
}
use lseb.DataFormat.{EventMetaData, Iovec, Memory}
use lseb.Accumulator.Undone.{undone}
use lseb.Socket.{Socket}
use lseb.ReadoutUnit.{ReadoutUnit}
use lseb.ReadoutUnit.Polls.{sent, regions, length-regions, InOrder}
use lseb.ReadoutUnit.Waiting.{waiting, stepped, Whole, drop-next}
use lseb.ReadoutUnit.Turns.{IsCycle, Below, Once-lt, Below-take_next, Below-last}
use lseb.ReadoutUnit.Serving.{Serves, Covered}

pub stepped-keeps :
    (ru : ReadoutUnit) (later : List ℕ)
    → ((stepped ru later).connection_ids ≡ ru.connection_ids)
      × ((stepped ru later).accumulator ≡ ru.accumulator)
stepped-keeps ru [] = (refl, refl)
stepped-keeps ru (id ∷ later) = (refl, refl)

-- At the last turn of a cycle there is a piece for each connection.
pub last-Whole :
    (n s seq_id : ℕ) (ids later : List ℕ) (iovs : List Iovec) (conns : List Socket)
    → IsCycle n ids
    → length conns ≡ n
    → length iovs ≤ n
    → drop s ids ≡ seq_id ∷ later
    → seq_id < length iovs
    → Below (length iovs) (take s ids)
    → Whole later iovs conns
last-Whole zero s seq_id ids [] iovs conns cycle h k e f b = omega arith
last-Whole (suc n) s seq_id ids [] iovs conns cycle h k e f b = omega (
  arith,
  Once-lt n (length iovs) ids (cycle.turn n (omega arith))
      (Below-last (length iovs) s seq_id ids e f b),
)
last-Whole n s seq_id ids (id ∷ later) iovs conns cycle h k e f b = tt

module _ {metadata : Memory EventMetaData} {lo hi dlo dhi k count n : ℕ} {ids : List ℕ}
    (cycle : IsCycle n ids) (base : ℕ) where
  -- The state after the turn of `seq_id`, whose piece was sent.
  pub stepped-Serves :
      (ru : ReadoutUnit) (due seq_id : ℕ) (later : List ℕ) (conns : List Socket)
      (s : Serves metadata lo hi dlo dhi k count base n ids ru due)
      → drop ru.seq_it ids ≡ seq_id ∷ later
      → seq_id < length ru.iov_to_send
      → Whole later ru.iov_to_send ru.connection_ids
      → InOrder conns
      → regions conns ≡ regions ru.connection_ids
      → let ru' = stepped (record ru { connection_ids = conns }) later in
        Perm (undone s.out) (sent conns ++ waiting (drop ru'.seq_it ids) ru'.iov_to_send)
        → Serves metadata lo hi dlo dhi k count base n ids ru' due
  stepped-Serves ru due seq_id [] conns s e f w o r p = record {
    controller = s.controller;
    q = s.q;
    g = s.g;
    out = s.out;
    is_state = s.is_state;
    runs = s.runs;
    numbered = s.numbered;
    in_time = s.in_time;
    sequence = s.sequence;
    place = omega (arith, s.place);
    nodes = length-regions conns ru.connection_ids r ∙ s.nodes;
    order = o;
    covered = subst (Covered dlo dhi) (sym r) s.covered;
    ahead = omega arith;
    over = tt;
    within = tt;
    cycle = suc s.cycle;
    taken = omega (arith, s.taken, w, s.nodes, suc-mul s.cycle n);
    pieces = tt;
    split = p;
  }
  stepped-Serves ru due seq_id (id ∷ later) conns s e f w o r p =
      let (_, size) = drop-next ru.seq_it ids (id ∷ later) seq_id e in
      let next : suc ru.seq_it ≡ ru.seq_it + 1 = omega arith in
      record {
        controller = s.controller;
        q = s.q;
        g = s.g;
        out = s.out;
        is_state = s.is_state;
        runs = s.runs;
        numbered = s.numbered;
        in_time = s.in_time;
        sequence = s.sequence;
        place = omega (arith, size, cycle.size);
        nodes = length-regions conns ru.connection_ids r ∙ s.nodes;
        order = o;
        covered = subst (Covered dlo dhi) (sym r) s.covered;
        ahead = s.ahead;
        over =
            subst (λ m. Below (length ru.iov_to_send) (take m ids)) next
              (Below-take_next (length ru.iov_to_send) ru.seq_it seq_id ids (id ∷ later) e f
                s.over);
        within = s.within;
        cycle = s.cycle;
        taken = s.taken;
        pieces = s.pieces;
        split = p;
      }
