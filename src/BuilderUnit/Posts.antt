-- ===== src/BuilderUnit/Posts.antt =====
-- Posting the pieces of a node's memory, and what comes back when it polls.
use mathlib.Core.List.{Perm, append_assoc, append-nil, perm_append_comm, perm_middle, mem-cons_self}
use mathlib.Core.List.Perm
use lseb.Prelude.{
  ℕ, ◌<◌, ◌≡◌, refl, sym, ap, ◌∙◌, arith, inl, inr, List, [], ◌∷◌, ◌++◌, length, length-append,
  length-map, Option-cases, ok, Exception, eq→==,
}
use lseb.DataFormat.{Iovec}
use lseb.PendingMap.{PendingMap, find, erase}
use lseb.PendingMap.Laws.{keys, insert-IsSorted, find-Mem, keys-erase}
use lseb.Socket.{Socket, Completion, Poll, collect, post_recv, poll_completed_recv, failed, polled}
use lseb.Socket.Posting.{
  Refused, post_recv-Posted, no_credits, no_region, post_failed, duplicate_key,
}
use lseb.Socket.Polling.{ids, ArePending, collect-Collected}
use lseb.BuilderUnit.{post_all, reset_len}
use lseb.BuilderUnit.Owned.{Area, Owing, bases, all_addresses, not_posted, held}

-- The piece at an address.
abbrev pub piece : Area → ℕ → Iovec
piece a p = record { base = p; len = a.chunk }

module _ {a : Area} (some_bytes : 0 < a.chunk) where
  post_possible :
      {conn : Socket} {p : ℕ} {rest : List ℕ} {ret : ℕ} {x : Exception}
      → Owing a conn (p ∷ rest)
      → ret ≡ 0
      → ¬ Refused conn.mrs conn.credits conn.pending_recv (piece a p) ret x
  post_possible o z (no_credits h) = omega (arith, o.counted, o.credits_at)
  post_possible o z (no_region h) = (rw o.region at h) (inl (held some_bytes o))
  post_possible o z (post_failed h) = h z
  post_possible o z (duplicate_key len h) = cc (not_posted some_bytes o)

  -- A post that no condition stops moves the piece to the posted ones.
  post-Owing :
      {conn : Socket} {p : ℕ} {rest : List ℕ} {ret : ℕ}
      → Owing a conn (p ∷ rest)
      → ret ≡ 0
      → (conn' : Socket) × (post_recv conn (piece a p) ret ≡ (conn', ok tt)) × Owing a conn' rest
  post-Owing {conn} {p} {rest} {ret} o z = elim (post_recv-Posted conn (piece a p) ret o.sorted) [
    | inl (m, e, i, _, _, _, _) ↦ (
      record conn { pending_recv = m },
      e,
      record {
        sorted = insert-IsSorted p a.chunk conn.pending_recv m o.sorted i.inserts;
        shared =
            Perm.trans (Perm.append_right rest i.adds)
              (Perm.trans (Perm.symm (perm_middle (keys conn.pending_recv) rest)) o.shared);
        counted = omega (arith, i.grows, o.counted);
        credits_at = o.credits_at;
        region = o.region;
      },
    )
    | inr (x, e, why) ↦ absurd (post_possible o z why)
  ]

  pub post_all-Owing :
      (iovs : List Iovec) (ret : ℕ → ℕ) {conn : Socket} {rest : List ℕ}
      → Owing a conn (bases iovs ++ rest)
      → ((p : ℕ) → ret p ≡ 0)
      → (conn' : Socket) × (post_all conn (reset_len a.chunk iovs) ret ≡ ok conn')
        × Owing a conn' rest
  unfolding post_all reset_len
  post_all-Owing [] ret {conn} {rest} o z = (conn, refl, o)
  post_all-Owing (iov ∷ iovs) ret {conn} {rest} o z =
      let (conn1, e, o1) = post-Owing o (z iov.base) in
      let (conn2, f, o2) = post_all-Owing iovs ret o1 z in (conn2, rw e f, o2)

-- Each completion succeeded.
abbrev pub Succeed : List Completion → Type 0
Succeed [] = Unit {0}
Succeed (wc ∷ wcs) = (wc.status ≡ 0) × Succeed wcs

-- What the library answers when nothing fails: completions of pieces that are posted, each once.
pub data Returns (pending : PendingMap) : Poll → Type 0 where
  returns :
      (wcs : List Completion) (others : List ℕ)
      → Perm (keys pending) (ids wcs ++ others)
      → Succeed wcs
      → Returns pending (polled wcs)

-- The addresses that a poll answers with.
abbrev pub answered : Poll → List ℕ
answered failed = []
answered (polled wcs) = ids wcs

pub collect-ok :
    (wcs : List Completion) (others : List ℕ) (pending : PendingMap)
    → Perm (keys pending) (ids wcs ++ others)
    → Succeed wcs
    → (m : PendingMap) × (iovs : List Iovec) × (collect wcs pending ≡ (m, ok iovs))
unfolding collect
collect-ok [] others pending p s = (pending, [], refl)
collect-ok (wc ∷ wcs) others pending p s = elim (Option-cases (find wc.wr_id pending)) [
  | inl e ↦ absurd (find-Mem wc.wr_id pending ((Perm.mem_iff (Perm.symm p)).0 mem-cons_self) e)
  | inr (len, e) ↦
      let (m, iovs, f) =
        collect-ok wcs others (erase wc.wr_id pending)
          (Perm.cons_inv (Perm.trans (Perm.symm (keys-erase wc.wr_id len pending e)) p)) s.1 in
      (m, record { base = wc.wr_id; len = len } ∷ iovs, rw (eq→== wc.status 0 s.0, e, f))
]

-- The keys of what is left, with the pieces that came back behind `rest`.
poll-shared :
    (left rest new old all : List ℕ)
    → Perm old (new ++ left)
    → Perm (old ++ rest) all
    → Perm (left ++ (rest ++ new)) all
poll-shared left rest new old all p q =
    Perm.trans {l₂ = new ++ (left ++ rest)}
      (rw (← append_assoc left rest new) (perm_append_comm (left ++ rest) new))
      (Perm.trans {l₂ = old ++ rest}
        (rw (← append_assoc new left rest) (Perm.append_right rest (Perm.symm p))) q)

-- A poll gives the pieces that the library answers with, as they were posted, and they are posted no longer.
pub poll-Owing :
    {a : Area} {conn : Socket} {rest : List ℕ} {poll : Poll}
    → Owing a conn rest
    → Returns conn.pending_recv poll
    → (conn' : Socket) × (iovs : List Iovec) × (poll_completed_recv conn poll ≡ (conn', ok iovs))
      × (bases iovs ≡ answered poll)
      × ArePending conn.pending_recv iovs
      × Owing a conn' (rest ++ bases iovs)
unfolding poll_completed_recv
poll-Owing {a} {conn} {rest} o (returns wcs others p s) =
    let (m, iovs, e) = collect-ok wcs others conn.pending_recv p s in
    let c = rw e at (collect-Collected wcs conn.pending_recv o.sorted) in
    elim c.gives [
      | inl (r, iovs', f, b, k) ↦ (
        record conn { pending_recv = m },
        iovs',
        rw e (ap (λ t. (record conn { pending_recv = m }, t)) f),
        b ∙ ap ids (sym (append-nil c.done) ∙ ap (λ l. c.done ++ l) (sym r) ∙ sym c.split),
        k,
        record {
          sorted = c.sorted;
          shared =
              poll-shared (keys m) rest (bases iovs') (keys conn.pending_recv) (all_addresses a)
                (rw b c.taken) o.shared;
          counted = omega (
            arith,
            ap length b,
            length-map (λ wc. wc.wr_id) c.done,
            c.counted,
            length-append rest (bases iovs'),
            o.counted,
          );
          credits_at = o.credits_at;
          region = o.region;
        },
      )
      | inr (x, f, why) ↦ cc f
    ]
