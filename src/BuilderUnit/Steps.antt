-- ===== src/BuilderUnit/Steps.antt =====
-- The operations of the builder unit keep each node's memory.
use mathlib.Core.List.{append-nil, map-append}
use mathlib.Core.List.Perm
use native.Mathlib.Nat.{mod-eq_of_lt, mul_comm, le-mul_of_pos_right, mul-le-mul_left, zero-add}
use lseb.Prelude.{
  ℕ, zero, suc, ◌+◌, ◌*◌, ◌%◌, ◌≤◌, ◌<◌, ◌≡◌, refl, sym, ap, ◌∙◌, arith, true, List, [], ◌∷◌, ◌++◌,
  length, take, drop, take-append-drop, ok, word, int_bound, mul_size, to_int, lt→ltb, le→leb,
}
use lseb.DataFormat.{Iovec}
use lseb.Socket as Sockets
use lseb.Socket.{Socket, Poll, register_memory}
use lseb.BuilderUnit.{
  BuilderUnit, Link, connect, read_data, release_data, chunks, reset_len, iovec_length,
}
use lseb.BuilderUnit.Owned.{Area, Owing, Owned, bases, addresses, length-addresses}
use lseb.Socket.Polling.{ArePending}
use lseb.BuilderUnit.Posts.{Returns, answered, post_all-Owing, poll-Owing}

-- The memory of node `i`.
abbrev pub area : BuilderUnit → ℕ → Area
area bu i =
    let chunk = bu.max_fragment_size * bu.bulk_size in
    record { base = bu.data_ptr + i * chunk * bu.credits; chunk = chunk; credits = bu.credits }

-- The sizes of node `i`'s memory and of that before it fit their types.
pub record Room (bu : BuilderUnit) (i : ℕ) : Type 0 where
  pub some_bytes : 0 < (area bu i).chunk
  pub some_credits : 0 < bu.credits
  pub chunk_fits : (area bu i).chunk < int_bound
  pub area_fits : (area bu i).chunk * bu.credits < int_bound
  pub before_fits : i * (area bu i).chunk * bu.credits < int_bound

reset_len-chunks :
    (base chunk j n : ℕ) → reset_len chunk (chunks base chunk j n) ≡ chunks base chunk j n
unfolding reset_len chunks
reset_len-chunks base chunk j zero = refl
reset_len-chunks base chunk j (suc n) = rw (reset_len-chunks base chunk (suc j) n)

bases-chunks :
    (base chunk j n : ℕ)
    → chunk * (j + n) < word
    → bases (chunks base chunk j n) ≡ addresses base chunk j n
unfolding chunks
bases-chunks base chunk j zero h = refl
bases-chunks base chunk j (suc n) h =
    λ i. (base + place i) ∷ (bases-chunks base chunk (suc j) n (rw next at h)) i
  where
    next : j + suc n ≡ suc j + n
    next = omega arith

    fits : chunk * j ≤ chunk * (j + suc n)
    fits = mul-le-mul_left chunk (omega arith)

    place : mul_size j chunk ≡ chunk * j
    place =
        ap (λ m. m % word) (mul_comm j chunk)
        ∙ mod-eq_of_lt {n = chunk * j} {m = word} (omega (arith, h, fits))

module _ {a : Area} (link : Link) (o : Owned a link) where
  -- If each piece of the node's memory is posted or received, and the poll answers with pieces that
  -- are posted, each once, `read_data` puts exactly these, with the lengths they were posted with,
  -- behind the received ones, counts them, and each piece is again posted or received.
  pub read_data-Owned :
      (poll : Poll)
      → Returns link.conn.pending_recv poll
      → (link' : Link) × (iovs : List Iovec) × (read_data link poll ≡ ok (link', length iovs))
        × (link'.iov_vect ≡ link.iov_vect ++ iovs)
        × (bases iovs ≡ answered poll)
        × ArePending link.conn.pending_recv iovs
        × Owned a link'
  unfolding read_data
  read_data-Owned poll r =
      let (conn, iovs, e, b, k, o') = poll-Owing o r in
      (
        record { conn = conn; iov_vect = link.iov_vect ++ iovs },
        iovs,
        rw e,
        refl,
        b,
        k,
        rw (map-append (λ v. v.base) link.iov_vect iovs) o',
      )

module _ (bu : BuilderUnit) (i : ℕ) (room : Room bu i) where
  chunk_int : to_int (bu.max_fragment_size * bu.bulk_size) ≡ ok (area bu i).chunk
  chunk_int = rw (lt→ltb (bu.max_fragment_size * bu.bulk_size) int_bound room.chunk_fits)

  -- If each piece of the node's memory is posted or received, and all posts are taken,
  -- `release_data` of no more pieces than were received posts the oldest ones again, the others
  -- stay, and each piece is again posted or received.
  pub release_data-Owned :
      (link : Link) (n : ℕ) (ret : ℕ → ℕ)
      → Owned (area bu i) link
      → n ≤ length link.iov_vect
      → ((p : ℕ) → ret p ≡ 0)
      → (link' : Link) × (release_data bu link n ret
          ≡ ok (link', iovec_length (take n link.iov_vect)))
        × (link'.iov_vect ≡ drop n link.iov_vect)
        × Owned (area bu i) link'
  unfolding release_data
  release_data-Owned link n ret o h z =
      let parts : bases link.iov_vect
          ≡ bases (take n link.iov_vect) ++ bases (drop n link.iov_vect) =
        ap bases (sym (take-append-drop n link.iov_vect))
        ∙ map-append (λ v. v.base) (take n link.iov_vect) (drop n link.iov_vect) in
      let (conn, e, o') =
        post_all-Owing room.some_bytes (take n link.iov_vect) ret (rw parts at o) z in
      (
        record { conn = conn; iov_vect = drop n link.iov_vect },
        rw (le→leb n (length link.iov_vect) h, chunk_int, e),
        refl,
        o',
      )

  area_size : mul_size (area bu i).chunk bu.credits ≡ (area bu i).chunk * bu.credits
  area_size = omega (arith, room.area_fits)

  base_at : bu.data_ptr + mul_size (mul_size i (area bu i).chunk) bu.credits ≡ (area bu i).base
  base_at =
      let inner : mul_size i (area bu i).chunk ≡ i * (area bu i).chunk =
        omega (
          arith,
          room.before_fits,
          le-mul_of_pos_right (i * (area bu i).chunk) room.some_credits,
        ) in
      rw inner (omega (arith, room.before_fits))

  -- The accepted socket, with its memory registered.
  abbrev registered : Socket
  registered = record (Sockets.create bu.credits) {
    mrs = record { addr = (area bu i).base; length = (area bu i).chunk * bu.credits } ∷ [];
  }

  fresh-Owing :
      Owing
        (area bu i)
        registered
        (bases (chunks (area bu i).base (area bu i).chunk 0 bu.credits) ++ [])
  unfolding Sockets.create
  fresh-Owing =
      let all =
        bases-chunks (area bu i).base (area bu i).chunk 0 bu.credits
          (omega (arith, room.area_fits, ap (λ n. (area bu i).chunk * n) (zero-add bu.credits))) in
      rw (append-nil (bases (chunks (area bu i).base (area bu i).chunk 0 bu.credits)), all)
        (record {
          sorted = tt;
          shared = Perm.refl _;
          counted = omega (arith, length-addresses (area bu i).base (area bu i).chunk 0 bu.credits);
          credits_at = refl;
          region = refl;
        })

  -- If the memory's sizes fit their types, its registration succeeds and all posts are taken,
  -- `connect` on a fresh socket posts each piece of the node's memory, and nothing is received yet.
  pub connect-Owned :
      (ret : ℕ → ℕ)
      → ((p : ℕ) → ret p ≡ 0)
      → (link : Link) × (connect bu i (Sockets.create bu.credits) true ret ≡ ok link)
        × (link.iov_vect ≡ [])
        × Owned (area bu i) link
  unfolding connect Sockets.create register_memory
  connect-Owned ret z =
      let a = area bu i in
      let pieces = chunks a.base a.chunk 0 a.credits in
      let (conn, e, o) = post_all-Owing room.some_bytes pieces ret fresh-Owing z in
      (
        record { conn = conn; iov_vect = [] },
        rw (chunk_int, base_at, area_size, ← reset_len-chunks a.base a.chunk 0 a.credits, e),
        refl,
        o,
      )
