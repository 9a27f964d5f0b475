-- ===== src/Libfabric.antt =====
-- transport/libfabric/: the socket over libfabric, compiled for one of two providers. What the library answers is an
-- argument of each function.
pub mod Simulation
use lseb.Prelude.{
  ℕ, ◌+◌, Bool, true, false, ◌&&◌, Result, ok, err, thrown, Exception, assert, ◌>>◌, leb, ltb, ◌==◌,
  if◌then◌else◌, List, [], ◌∷◌, ◌++◌, Option, none, some, length, map,
}
use lseb.DataFormat.{Iovec}
use lseb.PendingMap.{PendingMap, find, insert, erase}

-- The macro that the program is compiled with.
pub data Provider : Type 0 where
  fi_verbs fi_tcp : Provider

pub record MemoryRegion : Type 0 where
  pub begin : ℕ
  pub end : ℕ

-- The order of the entries of an `unordered_map` is the library's; here it is that of the addresses.
pub record Socket : Type 0 where
  pub credits : ℕ
  pub mrs : List MemoryRegion
  pub pending_send : PendingMap
  pub pending_recv : PendingMap

unfoldable pub create : ℕ → Socket
create credits = record { credits = credits; mrs = []; pending_send = []; pending_recv = [] }

-- What `fi_cq_read` answers: the contexts of the completions, that there are none, or another error.
pub data CqRead : Type 0 where
  entries : List ℕ → CqRead
  again : CqRead
  failed : CqRead

unfoldable pub is_in_mr : Iovec → MemoryRegion → Bool
is_in_mr iov mr = leb mr.begin iov.base && leb (iov.base + iov.len) mr.end

-- `std::find_if` with `is_in_mr`, and whether it finds a region.
unfoldable pub find_if : List MemoryRegion → Iovec → Bool
find_if [] iov = false
find_if (mr ∷ mrs) iov = if is_in_mr iov mr then true else find_if mrs iov

-- The flag says whether `fi_mr_reg` took the region.
unfoldable pub register_memory : Provider → Socket → ℕ → ℕ → Bool → Socket × Result (Unit {0})
register_memory fi_tcp s buffer size registered = (s, ok tt)
register_memory fi_verbs s buffer size true =
    (record s { mrs = s.mrs ++ record { begin = buffer; end = buffer + size } ∷ [] }, ok tt)
register_memory fi_verbs s buffer size false = (s, err (thrown Exception.register_failed))

unfoldable pub available_send : Socket → Bool
available_send s = ltb (length s.pending_send) s.credits

unfoldable pub available_recv : Socket → Bool
available_recv s = ltb (length s.pending_recv) s.credits

-- The check for a region, which is compiled in for one provider only.
unfoldable pub check_region : Provider → List MemoryRegion → Iovec → Result (Unit {0})
check_region fi_verbs mrs iov = assert (find_if mrs iov)
check_region fi_tcp mrs iov = ok tt

-- `fi_send` or `fi_recv` with this return value, and the insertion among the pending pieces.
unfoldable pub submit : PendingMap → Iovec → ℕ → Result PendingMap
submit pending iov ret =
    if ret == 0
    then elim (insert iov.base iov.len pending) [
      | none ↦ err (thrown Exception.duplicate_key)
      | some pending' ↦ ok pending'
    ]
    else err (thrown Exception.post_failed)

unfoldable pub post_send : Provider → Socket → Iovec → ℕ → Socket × Result (Unit {0})
post_send provider s iov ret =
    if available_send s
    then elim (check_region provider s.mrs iov >> submit s.pending_send iov ret) [
      | ok pending ↦ (record s { pending_send = pending }, ok tt)
      | err e ↦ (s, err e)
    ]
    else (s, err (thrown Exception.no_credits))

unfoldable pub post_recv : Provider → Socket → Iovec → ℕ → Socket × Result (Unit {0})
post_recv provider s iov ret =
    if available_recv s
    then elim (check_region provider s.mrs iov >> submit s.pending_recv iov ret) [
      | ok pending ↦ (record s { pending_recv = pending }, ok tt)
      | err e ↦ (s, err e)
    ]
    else (s, err (thrown Exception.no_credits))

-- The loop over the completions. An exception leaves the map as it is then.
unfoldable pub collect : List ℕ → PendingMap → PendingMap × Result (List Iovec)
collect [] pending = (pending, ok [])
collect (op_context ∷ contexts) pending = elim (find op_context pending) [
  | none ↦ (pending, err (thrown Exception.unknown_key))
  | some len ↦
      let (pending', rest) = collect contexts (erase op_context pending) in
      (
        pending',
        elim rest [ ok iovs ↦ ok (record { base = op_context; len = len } ∷ iovs) | err e ↦ err e ],
      )
]

unfoldable pub poll_completed_send : Socket → CqRead → Socket × Result (List Iovec)
poll_completed_send s again = (s, ok [])
poll_completed_send s failed = (s, err (thrown Exception.poll_failed))
poll_completed_send s (entries contexts) =
    let (pending, r) = collect contexts s.pending_send in (record s { pending_send = pending }, r)

unfoldable pub poll_completed_recv : Socket → CqRead → Socket × Result (List Iovec)
poll_completed_recv s again = (s, ok [])
poll_completed_recv s failed = (s, err (thrown Exception.poll_failed))
poll_completed_recv s (entries contexts) =
    let (pending, r) = collect contexts s.pending_recv in (record s { pending_recv = pending }, r)

abbrev iovecs : PendingMap → List Iovec
iovecs pending = map (λ e. record { base = e.0; len = e.1 }) pending

unfoldable pub pending_send : Socket → List Iovec
pending_send s = iovecs s.pending_send

unfoldable pub pending_recv : Socket → List Iovec
pending_recv s = iovecs s.pending_recv
