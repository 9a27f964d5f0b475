-- ===== src/BuilderUnit.antt =====
-- bu/builder_unit.cpp: receives the multievents of all readout units, checks that they are of the same
-- event, and gives their memory back to the senders. Node `i` has a socket and the pieces received on
-- it; the source keeps these in two sequences of the same length.
pub mod Checking
pub mod Owned
pub mod Posts
pub mod Steps
pub mod Run
pub mod Matching
pub mod Rounds
use lseb.Prelude.{
  ℕ, zero, suc, ◌+◌, ◌*◌, ◌%◌, ◌^◌, ◌-◌, Bool, true, false, not, Result, ok, err, thrown, undefined,
  Exception, assert, ◌>>=◌, ◌>>◌, ltb, leb, ◌==◌, if◌then◌else◌, to_int, add_size, mul_size, word,
  half_word, List, [], ◌∷◌, ◌++◌, length, take, drop,
}
use lseb.DataFormat.{EventHeader, Iovec, Memory}
use lseb.Generator.{is_aligned}
use lseb.Socket as Sockets
use lseb.Socket.{Socket, Poll, register_memory, post_recv, poll_completed_recv}

pub record Link : Type 0 where
  pub conn : Socket
  pub iov_vect : List Iovec

pub record BuilderUnit : Type 0 where
  pub links : List Link
  pub bulk_size : ℕ
  pub credits : ℕ
  pub max_fragment_size : ℕ
  pub id : ℕ
  pub data_ptr : ℕ

-- The constructor. `data_ptr` is the memory that `new` gives for the product, which is an `int`.
unfoldable pub create : ℕ → ℕ → ℕ → ℕ → ℕ → ℕ → Result BuilderUnit
create nodes bulk_size credits max_fragment_size id data_ptr = do
  chunk_size ← to_int (max_fragment_size * bulk_size)
  node_size ← to_int (chunk_size * credits)
  _ ← to_int (node_size * nodes)
  ok (record {
    links = [];
    bulk_size = bulk_size;
    credits = credits;
    max_fragment_size = max_fragment_size;
    id = id;
    data_ptr = data_ptr;
  })

-- An `int` that is converted to `size_t` keeps its sign.
abbrev pub int_to_size : ℕ → ℕ
int_to_size n = if ltb n (2 ^ 31) then n else word - 2 ^ 32 + n

-- `iovec_length`: the sum of the lengths, put into an `int` after each of them.
unfoldable pub sum_from : ℕ → List Iovec → ℕ
sum_from partial [] = partial
sum_from partial (iov ∷ iovs) = sum_from (int_to_size (add_size partial iov.len % 2 ^ 32)) iovs

unfoldable pub iovec_length : List Iovec → ℕ
iovec_length iovs = sum_from 0 iovs

-- An exception of a socket ends the builder unit.
abbrev pub lift : {A : Type 0} → Socket × Result A → Result (Socket × A)
lift (s, ok a) = ok (s, a)
lift (s, err e) = err e

-- Posts the pieces in order. `ret` is what the library answers to a post, by the address.
unfoldable pub post_all : Socket → List Iovec → (ℕ → ℕ) → Result Socket
post_all s [] ret = ok s
post_all s (iov ∷ iovs) ret = do
  (s', _) ← lift (post_recv s iov (ret iov.base))
  post_all s' iovs ret

-- The pieces from number `j` on.
unfoldable pub chunks : ℕ → ℕ → ℕ → ℕ → List Iovec
chunks base chunk_size j zero = []
chunks base chunk_size j (suc n) =
    record { base = base + mul_size j chunk_size; len = chunk_size }
    ∷ chunks base chunk_size (suc j) n

-- The body of the loop of `connect`, for node `i`, on the accepted socket. The flag says whether the
-- memory could be registered.
unfoldable pub connect : BuilderUnit → ℕ → Socket → Bool → (ℕ → ℕ) → Result Link
connect bu i conn registered ret = do
  chunk_size ← to_int (bu.max_fragment_size * bu.bulk_size)
  let base_data_ptr = bu.data_ptr + mul_size (mul_size i chunk_size) bu.credits
  (conn', _) ← lift (register_memory conn base_data_ptr (mul_size chunk_size bu.credits) registered)
  conn'' ← post_all conn' (chunks base_data_ptr chunk_size 0 bu.credits) ret
  ok (record { conn = conn''; iov_vect = [] })

-- The loop of `connect` from node `i` on. Each call of `accept` gives a new socket.
unfoldable pub connect_links : BuilderUnit → ℕ → ℕ → (ℕ → Bool) → (ℕ → ℕ) → Result (List Link)
connect_links bu i zero registered ret = ok []
connect_links bu i (suc nodes) registered ret = do
  link ← connect bu i (Sockets.create bu.credits) (registered i) ret
  links ← connect_links bu (suc i) nodes registered ret
  ok (link ∷ links)

unfoldable pub connect_all : BuilderUnit → ℕ → (ℕ → Bool) → (ℕ → ℕ) → Result BuilderUnit
connect_all bu nodes registered ret = do
  links ← connect_links bu 0 nodes registered ret
  ok (record bu { links = links })

-- `read_data`, with how many pieces are new.
unfoldable pub read_data : Link → Poll → Result (Link × ℕ)
read_data link poll = do
  (conn, new_data) ← lift (poll_completed_recv link.conn poll)
  ok (record { conn = conn; iov_vect = link.iov_vect ++ new_data }, length new_data)

-- The header at the start of a link's first piece; `front` of no piece is undefined.
unfoldable pub front_header : Memory EventHeader → List Iovec → Result EventHeader
front_header headers [] = err undefined
front_header headers (iov ∷ iovs) = do assert (is_aligned iov.base); ok (headers iov.base)

unfoldable pub check_links : Memory EventHeader → ℕ → List Link → Result Bool
check_links headers first_evt_id [] = ok true
check_links headers first_evt_id (link ∷ links) = do
  h ← front_header headers link.iov_vect
  let rest = check_links headers first_evt_id links
  if h.id == first_evt_id then (if h.length == 0 then ok false else rest) else ok false

unfoldable pub check_data : Memory EventHeader → List Link → Result Bool
check_data headers [] = err undefined
check_data headers (link ∷ links) = do
  h ← front_header headers link.iov_vect
  check_links headers h.id (link ∷ links)

-- The pieces with the length of a chunk again.
unfoldable pub reset_len : ℕ → List Iovec → List Iovec
reset_len len [] = []
reset_len len (iov ∷ iovs) = record { base = iov.base; len = len } ∷ reset_len len iovs

-- `release_data`, with the number of bytes.
unfoldable pub release_data : BuilderUnit → Link → ℕ → (ℕ → ℕ) → Result (Link × ℕ)
release_data bu link n ret = do
  assert (leb n (length link.iov_vect))
  let sub_vect = take n link.iov_vect
  chunk_size ← to_int (bu.max_fragment_size * bu.bulk_size)
  conn ← post_all link.conn (reset_len chunk_size sub_vect) ret
  ok (record { conn = conn; iov_vect = drop n link.iov_vect }, iovec_length sub_vect)

-- The first loop of a round of `run`, from node `i` on: reads from all nodes, and gives the least number
-- of pieces that a node has.
unfoldable pub read_links : ℕ → List Link → (ℕ → Poll) → ℕ → Result (List Link × ℕ)
read_links i [] polls min_wrs = ok ([], min_wrs)
read_links i (link ∷ links) polls min_wrs = do
  (link', _) ← read_data link (polls i)
  let current_wrs = length link'.iov_vect
  (links', m) ←
      read_links (suc i) links polls (if ltb min_wrs current_wrs then min_wrs else current_wrs)
  ok (link' ∷ links', m)

-- The second loop.
unfoldable pub release_links : BuilderUnit → List Link → ℕ → (ℕ → ℕ) → Result (List Link)
release_links bu [] n ret = ok []
release_links bu (link ∷ links) n ret = do
  (link', _) ← release_data bu link n ret
  links' ← release_links bu links n ret
  ok (link' ∷ links')

-- The part of a round behind the reads: checks the data and releases the pieces.
unfoldable pub build :
    BuilderUnit → Memory EventHeader → (ℕ → ℕ) → List Link × ℕ → Result BuilderUnit
build bu headers ret (links, min_wrs) =
    if min_wrs == 0 then ok (record bu { links = links }) else do
      checked ← check_data headers links
      if not checked
          then err (thrown Exception.data_mismatch)
          else do links' ← release_links bu links min_wrs ret; ok (record bu { links = links' })

-- One round of `run`, without its clocks and its log.
unfoldable pub run_once :
    BuilderUnit → Memory EventHeader → (ℕ → Poll) → (ℕ → ℕ) → Result BuilderUnit
run_once bu headers polls ret = read_links 0 bu.links polls bu.credits >>= build bu headers ret
