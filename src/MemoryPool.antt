-- ===== src/MemoryPool.antt =====
-- common/memory_pool.h: pieces of one length, cut from a buffer, that are handed out and given back.
pub mod Carving
pub mod Exchange
use lseb.Prelude.{
  ℕ, zero, suc, ◌+◌, ◌-◌, Bool, true, false, not, Result, ok, err, undefined, assert_failed, assert,
  ◌>>=◌, ◌>>◌, leb, add_size, List, [], ◌∷◌, length,
}
use lseb.DataFormat.{Iovec}

-- The pool's last piece stands first.
pub record MemoryPool : Type 0 where
  pub buffer : ℕ
  pub chunk_len : ℕ
  pub buffer_len : ℕ
  pub pool : List Iovec

-- The constructor's loop. It ends within a round for each piece and one more, unless pieces have no length: then it
-- never does, and the fuel runs out.
unfoldable pub carve : ℕ → ℕ → ℕ → ℕ → ℕ → List Iovec → Result (List Iovec)
carve zero buffer chunk_len end_len cur_len pool = err undefined
carve (suc fuel) buffer chunk_len end_len cur_len pool = elim (leb cur_len end_len) [
  | true ↦
      carve fuel buffer chunk_len end_len (add_size cur_len chunk_len)
        (record { base = buffer + cur_len; len = chunk_len } ∷ pool)
  | false ↦ ok pool
]

unfoldable pub create : ℕ → ℕ → ℕ → Result MemoryPool
create buffer buffer_len chunk_len = do
  assert (leb chunk_len buffer_len)
  pool ← carve (suc buffer_len) buffer chunk_len (buffer_len - chunk_len) 0 []
  ok (record { buffer = buffer; chunk_len = chunk_len; buffer_len = buffer_len; pool = pool })

unfoldable pub take_back : MemoryPool → List Iovec → Result (MemoryPool × Iovec)
take_back p [] = err assert_failed
take_back p (iov ∷ pool) = ok (record p { pool = pool }, iov)

unfoldable pub alloc : MemoryPool → Result (MemoryPool × Iovec)
unfolding take_back
alloc p = take_back p p.pool

unfoldable pub free : MemoryPool → Iovec → Result MemoryPool
free p iov = do
  assert (leb iov.len p.chunk_len)
  assert (leb p.buffer iov.base)
  assert (leb (iov.base + iov.len) (p.buffer + p.buffer_len))
  ok (record p { pool = iov ∷ p.pool })

unfoldable pub available : MemoryPool → ℕ
available p = length p.pool

is_nil : List Iovec → Bool
is_nil [] = true
is_nil (iov ∷ pool) = false

unfoldable pub empty : MemoryPool → Bool
unfolding is_nil
empty p = is_nil p.pool
