-- ===== src/ReadoutUnit/Serving.antt =====
-- The state of the readout unit between two rounds of `run`, and what the libraries answer to a round.
use mathlib.Core.List.{Perm}
use lseb.Prelude.{
  ℕ, zero, suc, ◌+◌, ◌-◌, ◌*◌, ◌≤◌, ◌<◌, ◌≡◌, refl, arith, Bool, List, [], ◌∷◌, ◌++◌, length, take,
  drop, get_elem?, Option, none, some, inl, inr,
}
use mathlib.Core.Option.{some-injective}
use lseb.DataFormat.{EventMetaData, Iovec, Memory}
use lseb.Controller.{Controller}
use lseb.Accumulator.Invariant.{state, Runs, Numbered}
use lseb.Accumulator.Undone.{undone}
use lseb.BuilderUnit.Posts.{Returns}
use lseb.Socket.{Socket, Region, Poll}
use lseb.Socket.Posting.{Any, Holds}
use lseb.ReadoutUnit.{ReadoutUnit}
use lseb.ReadoutUnit.Polls.{sent, InOrder, Polled, regions}
use lseb.ReadoutUnit.Waiting.{waiting}
use lseb.ReadoutUnit.Acquires.{Within, Pieces}
use lseb.ReadoutUnit.Turns.{Below, Distinct}

-- One of the regions holds the memory of the data.
abbrev pub Covers : ℕ → ℕ → Region → Type 0
Covers dlo dhi mr = (mr.addr ≤ dlo) × (dhi ≤ mr.addr + mr.length)

abbrev pub Covered : ℕ → ℕ → List (List Region) → Type 0
Covered dlo dhi [] = Unit {0}
Covered dlo dhi (mrs ∷ rest) = Any (Covers dlo dhi) mrs × Covered dlo dhi rest

-- The library answers to the poll of each connection, the first one's number being `id`, with pieces that are pending
-- on it, each once.
abbrev pub Answers : ℕ → List Socket → (ℕ → Poll) → Type 0
Answers id [] polls = Unit {0}
Answers id (conn ∷ conns) polls =
    Returns conn.pending_send (polls id) × Answers (suc id) conns polls

-- Between two rounds: the accumulator's multievents that did not come back are those pending on the connections and
-- those that wait for their node. Each node whose turn is over has a piece. The piece for node `i` is multievent number
-- `cycle * n + i`, and all before are those of whole cycles.
pub record Serves (metadata : Memory EventMetaData) (lo hi dlo dhi k count base n : ℕ)
    (ids : List ℕ) (ru : ReadoutUnit) (due : ℕ) : Type 0 where
  pub controller : Controller
  pub q : ℕ
  pub g : ℕ
  pub out : List (ℕ × Bool)
  pub is_state : ru.accumulator ≡ state lo hi dlo dhi k controller q g out
  pub runs : Runs lo hi dlo dhi k base controller q g out
  pub numbered : Numbered metadata lo dlo k count q out
  pub in_time : controller.generated_events ≤ due
  pub sequence : ru.id_sequence ≡ ids
  pub place : ru.seq_it < n
  pub nodes : length ru.connection_ids ≡ n
  pub order : InOrder ru.connection_ids
  pub covered : Covered dlo dhi (regions ru.connection_ids)
  pub ahead : length ru.iov_to_send ≤ n
  pub over : Below (length ru.iov_to_send) (take ru.seq_it ids)
  pub within : Within dlo dhi ru.iov_to_send
  pub cycle : ℕ
  pub taken : q + length out ≡ cycle * n + length ru.iov_to_send
  pub pieces : Pieces metadata lo dlo k count (cycle * n) ru.iov_to_send
  pub split :
      Perm (undone out) (sent ru.connection_ids ++ waiting (drop ru.seq_it ids) ru.iov_to_send)

-- The calls of `get_multievent` in a round, at most.
abbrev pub calls_for : Option ℕ → ℕ → ℕ
calls_for none waiting = 0
calls_for (some seq_id) waiting = seq_id + 1 - waiting

abbrev pub calls : ReadoutUnit → ℕ
calls ru = calls_for (get_elem? ru.id_sequence ru.seq_it) (length ru.iov_to_send)

answer_at :
    (first id : ℕ) (conns : List Socket) (polls : ℕ → Poll)
    → Answers first conns polls
    → id < length conns
    → (conn : Socket) × (get_elem? conns id ≡ some conn)
      × Returns conn.pending_send (polls (first + id))
answer_at first id [] polls a h = absurd (omega arith)
answer_at first zero (conn ∷ conns) polls a h =
    let same : first + 0 ≡ first = omega arith in (conn, refl, rw same a.0)
answer_at first (suc id) (conn ∷ conns) polls a h =
    let (c, e, r) = answer_at (suc first) id conns polls a.1 (omega arith) in
    let same : first + suc id ≡ suc first + id = omega arith in (c, e, rw same r)

pub Answers-Polled :
    (conns : List Socket) (polls : ℕ → Poll) (ids : List ℕ)
    → Answers 0 conns polls
    → Below (length conns) ids
    → Distinct ids
    → Polled conns polls ids
Answers-Polled conns polls [] a b d = tt
Answers-Polled conns polls (id ∷ ids) a b d =
    let (conn, e, r) = answer_at 0 id conns polls a b.0 in
    let same : 0 + id ≡ id = omega arith in
    ((conn, e, rw same at r), d.0, Answers-Polled conns polls ids a b.1 d.1)

Any-Holds :
    (dlo dhi : ℕ) (iov : Iovec) (mrs : List Region)
    → dlo ≤ iov.base
    → iov.base + iov.len ≤ dhi
    → Any (Covers dlo dhi) mrs
    → Any (λ mr. Holds mr iov) mrs
Any-Holds dlo dhi iov [] h k a = absurd a
Any-Holds dlo dhi iov (mr ∷ mrs) h k (inl c) = inl (omega (arith, c.0), omega (arith, c.1))
Any-Holds dlo dhi iov (mr ∷ mrs) h k (inr a) = inr (Any-Holds dlo dhi iov mrs h k a)

-- A piece of the data is held by a region of each connection.
pub Covered-Holds :
    (dlo dhi id : ℕ) (iov : Iovec) (conns : List Socket) (conn : Socket)
    → dlo ≤ iov.base
    → iov.base + iov.len ≤ dhi
    → get_elem? conns id ≡ some conn
    → Covered dlo dhi (regions conns)
    → Any (λ mr. Holds mr iov) conn.mrs
Covered-Holds dlo dhi id iov [] conn h k e c = cc
Covered-Holds dlo dhi zero iov (x ∷ conns) conn h k e c =
    rw (← some-injective _ _ e) (Any-Holds dlo dhi iov x.mrs h k c.0)
Covered-Holds dlo dhi (suc id) iov (x ∷ conns) conn h k e c =
    Covered-Holds dlo dhi id iov conns conn h k e c.1

pub piece_at :
    (dlo dhi id : ℕ) (iovs : List Iovec)
    → id < length iovs
    → Within dlo dhi iovs
    → (iov : Iovec) × (get_elem? iovs id ≡ some iov) × (dlo ≤ iov.base) × (iov.base + iov.len ≤ dhi)
piece_at dlo dhi id [] h w = absurd (omega arith)
piece_at dlo dhi zero (iov ∷ iovs) h w = (iov, refl, w.0, w.1)
piece_at dlo dhi (suc id) (iov ∷ iovs) h w = piece_at dlo dhi id iovs (omega arith) w.2
