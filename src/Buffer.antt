-- ===== src/Buffer.antt =====
-- common/utility.h, `Buffer`: the ring of slots that the generator fills and the readout unit frees.
-- A pointer is its index in units of `T`, so that pointer differences count elements.
pub mod Ring
use lseb.Prelude.{
  ℕ, suc, ◌+◌, ◌-◌, ◌%◌, ◌≤◌, ◌<◌, Bool, Result, ok, assert, ◌>>=◌, ◌>>◌, ltb, leb, add_size,
  sub_size,
}

pub record Buffer : Type 0 where
  pub begin : ℕ
  pub end : ℕ
  pub next_read : ℕ
  pub next_write : ℕ

unfoldable pub create : ℕ → ℕ → Result Buffer
create begin end = do
  assert (ltb begin end)
  ok (record { begin = begin; end = end; next_read = begin; next_write = begin })

unfoldable pub size : Buffer → ℕ
size b = sub_size b.end b.begin

-- The pointer difference is signed; the sum is taken in `size_t`, where it wraps.
unfoldable pub ready : Buffer → ℕ
ready b = add_size (size b) (sub_size b.next_write b.next_read) % size b

unfoldable pub available : Buffer → ℕ
available b = sub_size (size b) (ready b)

-- `m_begin + (p - m_begin + n) % size()`
unfoldable pub advance : Buffer → ℕ → ℕ → ℕ
advance b p n = b.begin + add_size (sub_size p b.begin) n % size b

unfoldable pub release : Buffer → ℕ → Result Buffer
release b n = do assert (leb n (ready b)); ok (record b { next_read = advance b b.next_read n })

unfoldable pub reserve : Buffer → ℕ → Result Buffer
reserve b n = do
  assert (ltb n (available b))
  ok (record b { next_write = advance b b.next_write n })
