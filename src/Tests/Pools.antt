-- ===== src/Tests/Pools.antt =====
-- A pool of two pieces of eight bytes in twenty.
use lseb.Prelude.{ℕ, ◌≡◌, refl, arith, ok, err, assert_failed, undefined, List, [], ◌∷◌}
use lseb.DataFormat.{Iovec}
use lseb.MemoryPool.{MemoryPool, create, alloc, carve, take_back}
use lseb.MemoryPool.Exchange.{created, allocated, Reachable-Shares, Shares, AllFree}

abbrev piece : ℕ → Iovec
piece n = record { base = n; len = 8 }

abbrev holding : List Iovec → MemoryPool
holding pool = record { buffer = 100; chunk_len = 8; buffer_len = 20; pool = pool }

created_pool : create 100 20 8 ≡ ok (holding (piece 108 ∷ piece 100 ∷ []))
unfolding create carve
created_pool = refl

first_piece :
    alloc (holding (piece 108 ∷ piece 100 ∷ [])) ≡ ok (holding (piece 100 ∷ []), piece 108)
unfolding alloc take_back
first_piece = refl

none_left : alloc (holding []) ≡ err assert_failed
unfolding alloc take_back
none_left = refl

-- A piece length of 0 leaves the loop without an end.
endless : create 100 20 0 ≡ err undefined
unfolding create carve
endless = refl

Reachable-Shares_example :
    Shares 100 20 8 (holding (piece 100 ∷ [])) (piece 108 ∷ [])
    × AllFree (holding (piece 100 ∷ [])) (piece 108 ∷ [])
Reachable-Shares_example =
    Reachable-Shares 100 20 8 (holding (piece 100 ∷ [])) (piece 108 ∷ []) (omega arith)
      (omega arith) (omega arith)
      (allocated (holding (piece 108 ∷ piece 100 ∷ [])) (holding (piece 100 ∷ [])) [] (piece 108)
        (created (holding (piece 108 ∷ piece 100 ∷ [])) created_pool) first_piece)
