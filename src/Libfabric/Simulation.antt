-- ===== src/Libfabric/Simulation.antt =====
-- The sockets over libfabric and over verbs give the same answers, as long as no completion has an error status.
use mathlib.Core.List.{map-append}
use lseb.Prelude.{
  ℕ, ◌+◌, ◌≡◌, refl, arith, List, [], ◌∷◌, map, none, some, Bool, true, false, ◌&&◌, Result, ok,
  err, Error, assert_failed, thrown, Exception, leb, ltb, ◌>>◌, length, Option-cases, Bool-cases,
  inl, inr,
}
use lseb.DataFormat.{Iovec}
use lseb.PendingMap.{PendingMap, find, erase}
use lseb.Socket
use lseb.Libfabric
use lseb.Libfabric.{
  MemoryRegion, Provider, fi_verbs, CqRead, entries, again, failed, find_if, is_in_mr, submit,
  check_region,
}

-- The region, the socket and a result over libfabric that stand for those over verbs.
abbrev region : Socket.Region → MemoryRegion
region mr = record { begin = mr.addr; end = mr.addr + mr.length }

abbrev pub fabric : Socket.Socket → Libfabric.Socket
fabric s = record {
  credits = s.credits;
  mrs = map region s.mrs;
  pending_send = s.pending_send;
  pending_recv = s.pending_recv;
}

-- Where verbs throws for a missing region, an assertion fails over libfabric.
abbrev fabric_error : Error → Error
fabric_error (thrown Exception.no_region) = assert_failed
fabric_error e = e

abbrev pub fabric_result {ℓ} : {A : Type ℓ} → Result A → Result A
fabric_result (ok value) = ok value
fabric_result (err e) = err (fabric_error e)

-- A call of the socket's interface with the library's answer: none of the completions has an error status.
pub data Call : Type 0 where
  register_memory : ℕ → ℕ → Bool → Call
  post_send : Iovec → ℕ → Call
  post_recv : Iovec → ℕ → Call
  poll_completed_send : CqRead → Call
  poll_completed_recv : CqRead → Call

-- The socket after the call, and the pieces that the call gives.
abbrev pub Step : Type 0 → Type 0
Step S = S × Result (List Iovec)

abbrev no_pieces : {S : Type 0} → S × Result (Unit {0}) → Step S
no_pieces (s, ok u) = (s, ok [])
no_pieces (s, err e) = (s, err e)

-- What the verbs library would have answered.
abbrev polled : CqRead → Socket.Poll
polled (entries contexts) = Socket.polled (map (λ c. record { wr_id = c; status = 0 }) contexts)
polled again = Socket.polled []
polled failed = Socket.failed

abbrev pub call_verbs : Socket.Socket → Call → Step Socket.Socket
call_verbs s (register_memory buffer size registered) =
    no_pieces (Socket.register_memory s buffer size registered)
call_verbs s (post_send iov ret) = no_pieces (Socket.post_send s iov ret)
call_verbs s (post_recv iov ret) = no_pieces (Socket.post_recv s iov ret)
call_verbs s (poll_completed_send read) = Socket.poll_completed_send s (polled read)
call_verbs s (poll_completed_recv read) = Socket.poll_completed_recv s (polled read)

abbrev pub call_fabric : Libfabric.Socket → Call → Step Libfabric.Socket
call_fabric s (register_memory buffer size registered) =
    no_pieces (Libfabric.register_memory fi_verbs s buffer size registered)
call_fabric s (post_send iov ret) = no_pieces (Libfabric.post_send fi_verbs s iov ret)
call_fabric s (post_recv iov ret) = no_pieces (Libfabric.post_recv fi_verbs s iov ret)
call_fabric s (poll_completed_send read) = Libfabric.poll_completed_send s read
call_fabric s (poll_completed_recv read) = Libfabric.poll_completed_recv s read

find_if-region :
    (mrs : List Socket.Region) (iov : Iovec)
    → find_if (map region mrs) iov ≡ elim (Socket.find_mr mrs iov) [ none ↦ false | some mr ↦ true ]
unfolding Socket.find_mr find_if is_in_mr
find_if-region [] iov = refl
find_if-region (mr ∷ mrs) iov =
    elim (Bool-cases (leb mr.addr iov.base && leb (iov.base + iov.len) (mr.addr + mr.length))) [
      | inl here ↦ rw here
      | inr later ↦ rw later (find_if-region mrs iov)
    ]

collect-zero :
    (contexts : List ℕ) (pending : PendingMap)
    → Libfabric.collect contexts pending
      ≡ Socket.collect (map (λ c. record { wr_id = c; status = 0 }) contexts) pending
unfolding Libfabric.collect Socket.collect
collect-zero [] pending = refl
collect-zero (c ∷ contexts) pending = elim (Option-cases (find c pending)) [
  | inl e ↦ rw (Libfabric.collect, Socket.collect, e)
  | inr (len, e) ↦
      rw (Libfabric.collect, Socket.collect, e, collect-zero contexts (erase c pending))
]

-- The outcome of a post.
post-region :
    (mrs : List Socket.Region) (pending : PendingMap) (iov : Iovec) (ret : ℕ)
    → (check_region fi_verbs (map region mrs) iov >> submit pending iov ret)
      ≡ fabric_result (Socket.post mrs pending iov ret)
unfolding Socket.post check_region submit
post-region mrs pending iov ret = elim (Option-cases (Socket.find_mr mrs iov)) [
  | inl e ↦ rw (find_if-region mrs iov, Socket.post, e)
  | inr (mr, e) ↦ ground (arith, find_if-region mrs iov, e)
]

-- No completion is refused for its region.
same_error :
    (contexts : List ℕ) (pending : PendingMap)
    → fabric_result (Libfabric.collect contexts pending).1 ≡ (Libfabric.collect contexts pending).1
unfolding Libfabric.collect
same_error [] pending = refl
same_error (c ∷ contexts) pending =
    let rest = same_error contexts (erase c pending) in
    elim (Option-cases (find c pending)) [
      | inl e ↦ rw (Libfabric.collect, e)
      | inr (len, e) ↦ ground (arith, e, rest)
    ]

-- How a post ends: `put` stores the new map of pending pieces.
settled :
    (s : Socket.Socket) (put : PendingMap → Socket.Socket) (r : Result PendingMap)
    → ◌≡◌ {A = Step Libfabric.Socket}
        (no_pieces (elim (fabric_result r) [
          | ok pending ↦ (fabric (put pending), ok tt)
          | err e ↦ (fabric s, err e)
        ]))
        (let out : Socket.Socket × Result (Unit {0}) = elim r [
          | ok pending ↦ (put pending, ok tt)
          | err e ↦ (s, err e)
        ] in
          (fabric (no_pieces out).0, fabric_result (no_pieces out).1))
settled s put (ok pending) = refl
settled s put (err e) = refl

-- A call over libfabric is the one over verbs.
call-fabric :
    (s : Socket.Socket) (c : Call)
    → call_fabric (fabric s) c ≡ (fabric (call_verbs s c).0, fabric_result (call_verbs s c).1)
unfolding Libfabric.register_memory Socket.register_memory Libfabric.post_send Socket.post_send
    Libfabric.post_recv Socket.post_recv Libfabric.poll_completed_send Socket.poll_completed_send
    Libfabric.poll_completed_recv Socket.poll_completed_recv Socket.collect Libfabric.available_send
    Socket.available_send Libfabric.available_recv Socket.available_recv
call-fabric s (register_memory buffer size true) = rw (map-append)
call-fabric s (register_memory buffer size false) = refl
call-fabric s (post_send iov ret) = elim (Bool-cases (ltb (length s.pending_send) s.credits)) [
  | inl free ↦
      rw (free, post-region s.mrs s.pending_send iov ret)
        (settled s (λ m. record s { pending_send = m }) (Socket.post s.mrs s.pending_send iov ret))
  | inr none_free ↦ rw none_free
]
call-fabric s (post_recv iov ret) = elim (Bool-cases (ltb (length s.pending_recv) s.credits)) [
  | inl free ↦
      rw (free, post-region s.mrs s.pending_recv iov ret)
        (settled s (λ m. record s { pending_recv = m }) (Socket.post s.mrs s.pending_recv iov ret))
  | inr none_free ↦ rw none_free
]
call-fabric s (poll_completed_send again) = refl
call-fabric s (poll_completed_send failed) = refl
call-fabric s (poll_completed_send (entries contexts)) =
    rw (← collect-zero contexts s.pending_send, same_error contexts s.pending_send)
call-fabric s (poll_completed_recv again) = refl
call-fabric s (poll_completed_recv failed) = refl
call-fabric s (poll_completed_recv (entries contexts)) =
    rw (← collect-zero contexts s.pending_recv, same_error contexts s.pending_recv)

-- A sequence of calls: the socket in the end, and what each call gave. A call that fails does not end the sequence.
abbrev pub calls_verbs : Socket.Socket → List Call → Socket.Socket × List (Result (List Iovec))
calls_verbs s [] = (s, [])
calls_verbs s (c ∷ cs) =
    let (s', r) = call_verbs s c in let (s'', rs) = calls_verbs s' cs in (s'', r ∷ rs)

abbrev pub calls_fabric :
    Libfabric.Socket → List Call → Libfabric.Socket × List (Result (List Iovec))
calls_fabric s [] = (s, [])
calls_fabric s (c ∷ cs) =
    let (s', r) = call_fabric s c in let (s'', rs) = calls_fabric s' cs in (s'', r ∷ rs)

-- Any calls on a socket over libfabric with the verbs provider give what they give on the socket
-- over verbs, where the library answers the same and no completion has an error status, and leave
-- the same pieces pending and the same regions registered; except that a missing region is a failed
-- assertion and not an exception.
pub calls-fabric :
    (s : Socket.Socket) (cs : List Call)
    → calls_fabric (fabric s) cs
      ≡ (fabric (calls_verbs s cs).0, map fabric_result (calls_verbs s cs).1)
calls-fabric s [] = refl
calls-fabric s (c ∷ cs) = rw (call-fabric s c, calls-fabric (call_verbs s c).0 cs)
