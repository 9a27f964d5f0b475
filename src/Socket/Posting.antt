-- ===== src/Socket/Posting.antt =====
-- `post_send` and `post_recv`: when a piece of memory is posted, and that a refused post changes nothing.
use lseb.Prelude.{
  ℕ, ◌+◌, ◌<◌, ◌≤◌, ◌≡◌, ◌≢◌, arith, List, [], ◌∷◌, length, none, some, Result, ok, err, thrown,
  Exception, leb, ◌⊎◌, inl, inr, ◌&&◌, Option-cases, Bool-cases, ℕ_discrete, dec_lt,
}
use lseb.DataFormat.{Iovec}
use lseb.PendingMap.{PendingMap, find}
use lseb.PendingMap.Laws.{IsSorted, Inserted, insert_new, insert-found}
use lseb.Socket.{
  Socket, Region, find_mr, post, post_send, post_recv, available_send, available_recv,
}

-- The region holds all of the piece of memory.
abbrev pub Holds : Region → Iovec → Type 0
Holds mr iov = (mr.addr ≤ iov.base) × (iov.base + iov.len ≤ mr.addr + mr.length)

abbrev pub Any : (Region → Type 0) → List Region → Type 0
Any P [] = ⊥
Any P (mr ∷ mrs) = P mr ⊎ Any P mrs

-- `find_mr` finds a region only if one holds the piece, and fails only if none does.
pub find_mr-Any :
    (mrs : List Region) (iov : Iovec) (mr : Region)
    → find_mr mrs iov ≡ some mr
    → Any (λ mr. Holds mr iov) mrs
unfolding find_mr
find_mr-Any [] iov mr e = cc
find_mr-Any (r ∷ mrs) iov mr e =
    elim (Bool-cases (leb r.addr iov.base && leb (iov.base + iov.len) (r.addr + r.length))) [
      | inl here ↦ inl (ground (arith, here))
      | inr later ↦ inr (find_mr-Any mrs iov mr (rw later at e))
    ]

pub find_mr-none :
    (mrs : List Region) (iov : Iovec) → find_mr mrs iov ≡ none → ¬ Any (λ mr. Holds mr iov) mrs
unfolding find_mr
find_mr-none [] iov e h = h
find_mr-none (r ∷ mrs) iov e (inl h) = ground arith
find_mr-none (r ∷ mrs) iov e (inr h) = find_mr-none mrs iov (ground arith) h

-- Why a post is refused.
pub data Refused (mrs : List Region) (credits : ℕ) (pending : PendingMap) (iov : Iovec) (ret : ℕ)
    : Exception → Type 0 where
  no_credits : credits ≤ length pending → Refused mrs credits pending iov ret Exception.no_credits
  no_region :
      ¬ Any (λ mr. Holds mr iov) mrs → Refused mrs credits pending iov ret Exception.no_region
  post_failed : ret ≢ 0 → Refused mrs credits pending iov ret Exception.post_failed
  duplicate_key :
      (len : ℕ)
      → find iov.base pending ≡ some len
      → Refused mrs credits pending iov ret Exception.duplicate_key

-- The outcome of a post on a socket: `set` puts the new map of pending pieces in its place.
abbrev pub Posted :
    Socket → (PendingMap → Socket) → PendingMap → Iovec → ℕ → Socket × Result (Unit {0}) → Type 0
Posted s set pending iov ret out =
    ((m : PendingMap) × (out ≡ (set m, ok tt))
      × Inserted iov.base iov.len pending m
      × (length pending < s.credits)
      × (ret ≡ 0)
      × (find iov.base pending ≡ none)
      × Any (λ mr. Holds mr iov) s.mrs)
    ⊎ ((e : Exception) × (out ≡ (s, err (thrown e))) × Refused s.mrs s.credits pending iov ret e)

post-cases :
    (mrs : List Region) (credits : ℕ) (pending : PendingMap) (iov : Iovec) (ret : ℕ)
    → IsSorted pending
    → ((m : PendingMap) × (post mrs pending iov ret ≡ ok m)
        × Inserted iov.base iov.len pending m
        × (ret ≡ 0)
        × (find iov.base pending ≡ none)
        × Any (λ mr. Holds mr iov) mrs)
      ⊎ ((e : Exception) × (post mrs pending iov ret ≡ err (thrown e))
          × Refused mrs credits pending iov ret e)
unfolding post
post-cases mrs credits pending iov ret sorted = elim (Option-cases (find_mr mrs iov)) [
  | inl e ↦ inr (Exception.no_region, rw (e, post), no_region (find_mr-none mrs iov e))
  | inr (mr, e) ↦ elim (ℕ_discrete ret 0) [
    | no bad ↦ inr (Exception.post_failed, ground (arith, e), post_failed bad)
    | yes good ↦ elim (Option-cases (find iov.base pending)) [
      | inl new ↦
          let (m, i) = insert_new iov.base iov.len pending new in
          inl (m, ground (arith, e, i.inserts), i, good, new, find_mr-Any mrs iov mr e)
      | inr (len, old) ↦ inr (
        Exception.duplicate_key,
        ground (arith, e, insert-found iov.base iov.len len pending sorted old),
        duplicate_key len old,
      )
    ]
  ]
]

-- With the pending pieces in order, `post_send` posts a piece exactly if a credit is free, a region
-- holds it, the library takes it and it is not posted yet; then it is pending, and nothing else
-- changes. Otherwise the exception names one of these conditions that fails, and the socket stays as
-- it is.
pub post_send-Posted :
    (s : Socket) (iov : Iovec) (ret : ℕ)
    → IsSorted s.pending_send
    → Posted s (λ m. record s { pending_send = m }) s.pending_send iov ret (post_send s iov ret)
unfolding post_send available_send
post_send-Posted s iov ret sorted = elim (dec_lt (length s.pending_send) s.credits) [
  | yes h ↦ elim (post-cases s.mrs s.credits s.pending_send iov ret sorted) [
    | inl (m, e, i, z, new, held) ↦ inl (m, ground (arith, e), i, h, z, new, held)
    | inr (x, e, r) ↦ inr (x, ground (arith, e), r)
  ]
  | no h ↦ inr (Exception.no_credits, ground arith, no_credits (omega arith))
]

-- With the pending pieces in order, `post_recv` posts a piece exactly if a credit is free, a region
-- holds it, the library takes it and it is not posted yet; then it is pending, and nothing else
-- changes. Otherwise the exception names one of these conditions that fails, and the socket stays as
-- it is.
pub post_recv-Posted :
    (s : Socket) (iov : Iovec) (ret : ℕ)
    → IsSorted s.pending_recv
    → Posted s (λ m. record s { pending_recv = m }) s.pending_recv iov ret (post_recv s iov ret)
unfolding post_recv available_recv
post_recv-Posted s iov ret sorted = elim (dec_lt (length s.pending_recv) s.credits) [
  | yes h ↦ elim (post-cases s.mrs s.credits s.pending_recv iov ret sorted) [
    | inl (m, e, i, z, new, held) ↦ inl (m, ground (arith, e), i, h, z, new, held)
    | inr (x, e, r) ↦ inr (x, ground (arith, e), r)
  ]
  | no h ↦ inr (Exception.no_credits, ground arith, no_credits (omega arith))
]
