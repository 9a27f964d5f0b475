-- ===== src/Socket.antt =====
-- transport/verbs/socket.cpp: posting pieces of memory for sending and receiving, within the credits, and
-- polling for those that are done. What the verbs library answers is an argument of each function: the
-- return value of a post, and the work completions of a poll.
pub mod Posting
pub mod Polling
use lseb.Prelude.{
  ℕ, zero, ◌+◌, Bool, true, false, not, ◌&&◌, Result, ok, err, thrown, Exception, ltb, leb, ◌==◌,
  if◌then◌else◌, List, [], ◌∷◌, ◌++◌, Option, none, some, length, map,
}
use lseb.DataFormat.{Iovec}
use lseb.PendingMap.{PendingMap, find, insert, erase}

-- A registered memory region.
pub record Region : Type 0 where
  pub addr : ℕ
  pub length : ℕ

pub record Socket : Type 0 where
  pub mrs : List Region
  pub credits : ℕ
  pub pending_send : PendingMap
  pub pending_recv : PendingMap

unfoldable pub create : ℕ → Socket
create credits = record { mrs = []; credits = credits; pending_send = []; pending_recv = [] }

-- A work completion: the address that was posted, and a status that is 0 on success.
pub record Completion : Type 0 where
  pub wr_id : ℕ
  pub status : ℕ

-- What `ibv_poll_cq` answers: an error, or the completions that it took off the queue.
pub data Poll : Type 0 where
  failed : Poll
  polled : List Completion → Poll

-- The first region that holds all of the piece of memory.
unfoldable pub find_mr : List Region → Iovec → Option Region
find_mr [] iov = none
find_mr (mr ∷ mrs) iov =
    if leb mr.addr iov.base && leb (iov.base + iov.len) (mr.addr + mr.length)
    then some mr
    else find_mr mrs iov

-- `register_memory`; the flag says whether `ibv_reg_mr` gave a region.
unfoldable pub register_memory : Socket → ℕ → ℕ → Bool → Socket × Result (Unit {0})
register_memory s buffer size true =
    (record s { mrs = s.mrs ++ record { addr = buffer; length = size } ∷ [] }, ok tt)
register_memory s buffer size false = (s, err (thrown Exception.register_failed))

unfoldable pub available_send : Socket → Bool
available_send s = ltb (length s.pending_send) s.credits

unfoldable pub available_recv : Socket → Bool
available_recv s = ltb (length s.pending_recv) s.credits

-- The common part of the posts, once a credit is there: the new map of pending pieces, or the exception.
unfoldable pub post : List Region → PendingMap → Iovec → ℕ → Result PendingMap
post mrs pending iov ret = elim (find_mr mrs iov) [
  | none ↦ err (thrown Exception.no_region)
  | some mr ↦
      if ret == 0
      then elim (insert iov.base iov.len pending) [
        | none ↦ err (thrown Exception.duplicate_key)
        | some pending' ↦ ok pending'
      ]
      else err (thrown Exception.post_failed)
]

unfoldable pub post_send : Socket → Iovec → ℕ → Socket × Result (Unit {0})
post_send s iov ret =
    if available_send s
    then elim (post s.mrs s.pending_send iov ret) [
      | ok pending ↦ (record s { pending_send = pending }, ok tt)
      | err e ↦ (s, err e)
    ]
    else (s, err (thrown Exception.no_credits))

unfoldable pub post_recv : Socket → Iovec → ℕ → Socket × Result (Unit {0})
post_recv s iov ret =
    if available_recv s
    then elim (post s.mrs s.pending_recv iov ret) [
      | ok pending ↦ (record s { pending_recv = pending }, ok tt)
      | err e ↦ (s, err e)
    ]
    else (s, err (thrown Exception.no_credits))

-- The loop over the completions: what is left pending, and the pieces that are done. An exception
-- leaves the map as it is then, and the pieces found so far are lost.
unfoldable pub collect : List Completion → PendingMap → PendingMap × Result (List Iovec)
collect [] pending = (pending, ok [])
collect (wc ∷ wcs) pending =
    if wc.status == 0
    then elim (find wc.wr_id pending) [
      | none ↦ (pending, err (thrown Exception.unknown_key))
      | some len ↦
          let (pending', rest) = collect wcs (erase wc.wr_id pending) in
          (
            pending',
            elim rest [
              | ok iovs ↦ ok (record { base = wc.wr_id; len = len } ∷ iovs)
              | err e ↦ err e
            ],
          )
    ]
    else (pending, err (thrown Exception.bad_status))

unfoldable pub poll_completed_send : Socket → Poll → Socket × Result (List Iovec)
poll_completed_send s failed = (s, err (thrown Exception.poll_failed))
poll_completed_send s (polled wcs) =
    let (pending, r) = collect wcs s.pending_send in (record s { pending_send = pending }, r)

unfoldable pub poll_completed_recv : Socket → Poll → Socket × Result (List Iovec)
poll_completed_recv s failed = (s, err (thrown Exception.poll_failed))
poll_completed_recv s (polled wcs) =
    let (pending, r) = collect wcs s.pending_recv in (record s { pending_recv = pending }, r)

abbrev iovecs : PendingMap → List Iovec
iovecs pending = map (λ e. record { base = e.0; len = e.1 }) pending

unfoldable pub pending_send : Socket → List Iovec
pending_send s = iovecs s.pending_send

unfoldable pub pending_recv : Socket → List Iovec
pending_recv s = iovecs s.pending_recv
