-- ===== src/Socket/Polling.antt =====
-- The polls: which pieces come back, and what a failing completion leaves.
use mathlib.Core.List.{Perm}
use mathlib.Core.List.Perm
use lseb.Prelude.{
  ℕ, ◌+◌, ◌≡◌, ◌≢◌, refl, ap, arith, List, [], ◌∷◌, ◌++◌, length, map, none, some, Result, ok, err,
  thrown, Exception, ◌⊎◌, inl, inr, Option-cases, ℕ_discrete, ne→==_false, eq→==,
}
use lseb.DataFormat.{Iovec}
use lseb.PendingMap.{PendingMap, find, erase}
use lseb.PendingMap.Laws.{IsSorted, keys, keys-erase, length-erase, erase-IsSorted, find-erase}
use lseb.Socket.{Completion, collect}

abbrev pub ids : List Completion → List ℕ
ids = map (λ wc. wc.wr_id)

-- The pieces are pending, with these lengths.
abbrev pub ArePending : PendingMap → List Iovec → Type 0
ArePending pending [] = Unit {0}
ArePending pending (iov ∷ iovs) = (find iov.base pending ≡ some iov.len) × ArePending pending iovs

ArePending-erase :
    (k : ℕ) (pending : PendingMap) (iovs : List Iovec)
    → IsSorted pending
    → ArePending (erase k pending) iovs
    → ArePending pending iovs
ArePending-erase k pending [] s a = tt
ArePending-erase k pending (iov ∷ iovs) s a =
    (ground (arith, find-erase iov.base k pending s, a.0), ArePending-erase k pending iovs s a.1)

-- The first of these completions throws, with `pending` left: it has an error status, or its address is
-- not pending.
pub data Stops (pending : PendingMap) : List Completion → Exception → Type 0 where
  bad_status :
      (wc : Completion) (wcs : List Completion)
      → wc.status ≢ 0
      → Stops pending (wc ∷ wcs) Exception.bad_status
  unknown_key :
      (wc : Completion) (wcs : List Completion)
      → wc.status ≡ 0
      → find wc.wr_id pending ≡ none
      → Stops pending (wc ∷ wcs) Exception.unknown_key

-- What the loop over completions did: the pieces of `done` are no longer pending. It has given all of
-- them, if there were no others, and else has thrown and given none.
pub record Collected (wcs : List Completion) (pending : PendingMap)
    (out : PendingMap × Result (List Iovec)) : Type 0 where
  pub done : List Completion
  pub rest : List Completion
  pub split : wcs ≡ done ++ rest
  pub taken : Perm (keys pending) (ids done ++ keys out.0)
  pub counted : length pending ≡ length done + length out.0
  pub sorted : IsSorted out.0
  pub gives :
      ((rest ≡ [])
        × (iovs : List Iovec) × (out.1 ≡ ok iovs)
        × (map (λ v. v.base) iovs ≡ ids done)
        × ArePending pending iovs)
      ⊎ ((e : Exception) × (out.1 ≡ err (thrown e)) × Stops out.0 rest e)

module _ (wc : Completion) (wcs : List Completion) (pending : PendingMap)
    (s : IsSorted pending) where
  -- A completion that throws is not taken, nor is one behind it.
  stopped :
      (e : Exception)
      → Stops pending (wc ∷ wcs) e
      → Collected (wc ∷ wcs) pending (pending, err (thrown e))
  stopped e why = record {
    done = [];
    rest = wc ∷ wcs;
    split = refl;
    taken = Perm.refl (keys pending);
    counted = omega arith;
    sorted = s;
    gives = inr (e, refl, why);
  }

  -- A completion that is taken goes before those of the rest of the loop.
  taken_first :
      (len : ℕ) (out : PendingMap × Result (List Iovec))
      → find wc.wr_id pending ≡ some len
      → Collected wcs (erase wc.wr_id pending) out
      → Collected (wc ∷ wcs) pending (
        out.0,
        elim out.1 [ ok iovs ↦ ok (record { base = wc.wr_id; len = len } ∷ iovs) | err e ↦ err e ],
      )
  taken_first len out f c = record {
    done = wc ∷ c.done;
    rest = c.rest;
    split = ap (λ l. wc ∷ l) c.split;
    taken = Perm.trans (keys-erase wc.wr_id len pending f) (Perm.cons wc.wr_id c.taken);
    counted = omega (arith, length-erase wc.wr_id len pending f, c.counted);
    sorted = c.sorted;
    gives = elim c.gives [
      | inl (r, iovs, e, b, a) ↦ inl (
        r,
        record { base = wc.wr_id; len = len } ∷ iovs,
        rw e refl,
        ap (λ l. wc.wr_id ∷ l) b,
        (f, ArePending-erase wc.wr_id pending iovs s a),
      )
      | inr (x, e, why) ↦ inr (x, rw e refl, why)
    ];
  }

-- With the pending pieces in order, the completions are taken in order up to the first with an error
-- status or an address that is not pending, for which the loop throws; if there is none the pieces
-- are given as they were posted. What is taken is no longer pending, also where the loop throws.
pub collect-Collected :
    (wcs : List Completion) (pending : PendingMap)
    → IsSorted pending
    → Collected wcs pending (collect wcs pending)
unfolding collect
collect-Collected [] pending s = record {
  done = [];
  rest = [];
  split = refl;
  taken = Perm.refl (keys pending);
  counted = omega arith;
  sorted = s;
  gives = inl (refl, [], refl, refl, tt);
}
collect-Collected (wc ∷ wcs) pending s = elim (ℕ_discrete wc.status 0) [
  | no bad ↦
      rw (ne→==_false wc.status 0 bad)
        (stopped wc wcs pending s Exception.bad_status (bad_status wc wcs bad))
  | yes good ↦ rw (eq→== wc.status 0 good) (elim (Option-cases (find wc.wr_id pending)) [
    | inl e ↦ rw e (stopped wc wcs pending s Exception.unknown_key (unknown_key wc wcs good e))
    | inr (len, e) ↦ rw e (
        taken_first wc wcs pending s len (collect wcs (erase wc.wr_id pending)) e
          (collect-Collected wcs (erase wc.wr_id pending) (erase-IsSorted wc.wr_id pending s)))
  ])
]
