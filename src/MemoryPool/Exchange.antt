-- ===== src/MemoryPool/Exchange.antt =====
-- `alloc` and `free`: the pieces that are handed out and those that are left are the pieces that were cut.
use mathlib.Core.List.{
  Perm, Mem, mem-cons, not-mem-nil, mem-cons_self, mem-append_right, mem-cons_of_mem, perm_middle,
  append-nil,
}
use mathlib.Core.List.Perm
use mathlib.Core.Logic.Or
use native.Mathlib.Bridge.{le_prop}
use native.Mathlib.Nat.{mul-suc, div-add-mod}
use lseb.Prelude.{
  ℕ, zero, suc, ◌+◌, ◌*◌, ◌/◌, ◌≤◌, ◌<◌, ◌≡◌, refl, sym, ap, arith, ok, List, [], ◌∷◌, ◌++◌, le→leb,
  word, ok-injective, ◌∙◌,
}
use lseb.DataFormat.{Iovec}
use lseb.MemoryPool.{MemoryPool, create, alloc, free, take_back}
use lseb.MemoryPool.Carving.{carved, create-carved}

-- A pool that was constructed, with the pieces it has handed out and not been given back, the last one first.
pub data Reachable (buffer buffer_len chunk_len : ℕ) : MemoryPool → List Iovec → Type 0 where
  created :
      (p : MemoryPool)
      → create buffer buffer_len chunk_len ≡ ok p
      → Reachable buffer buffer_len chunk_len p []
  allocated :
      (p p' : MemoryPool) (out : List Iovec) (iov : Iovec)
      → Reachable buffer buffer_len chunk_len p out
      → alloc p ≡ ok (p', iov)
      → Reachable buffer buffer_len chunk_len p' (iov ∷ out)
  freed :
      (p p' : MemoryPool) (before after : List Iovec) (iov : Iovec)
      → Reachable buffer buffer_len chunk_len p (before ++ iov ∷ after)
      → free p iov ≡ ok p'
      → Reachable buffer buffer_len chunk_len p' (before ++ after)

-- The pieces outside the pool `p` are those of `out`.
pub record Shares (buffer buffer_len chunk_len : ℕ) (p : MemoryPool) (out : List Iovec)
    : Type 0 where
  pub buffer_kept : p.buffer ≡ buffer
  pub buffer_len_kept : p.buffer_len ≡ buffer_len
  pub chunk_len_kept : p.chunk_len ≡ chunk_len
  pub split : Perm (p.pool ++ out) (carved buffer chunk_len (buffer_len / chunk_len))

-- `free` puts each of these pieces back.
abbrev pub AllFree : MemoryPool → List Iovec → Type 0
AllFree p [] = Unit {0}
AllFree p (iov ∷ out) = (free p iov ≡ ok (record p { pool = iov ∷ p.pool })) × AllFree p out

take_back-inv :
    (p p' : MemoryPool) (pool : List Iovec) (iov : Iovec)
    → take_back p pool ≡ ok (p', iov)
    → (rest : List Iovec) × (pool ≡ iov ∷ rest) × (p' ≡ record p { pool = rest })
unfolding take_back
take_back-inv p p' [] iov e = cc
take_back-inv p p' (i ∷ rest) iov e =
    (rest, ap (λ r. r.1 ∷ rest) (ok-injective e), sym (ap (λ r. r.0) (ok-injective e)))

-- A piece that `free` takes.
abbrev IsPiece : ℕ → ℕ → ℕ → Iovec → Type 0
IsPiece buffer buffer_len chunk_len iov =
    (iov.len ≤ chunk_len) × (buffer ≤ iov.base) × (iov.base + iov.len ≤ buffer + buffer_len)

carved-IsPiece :
    (buffer buffer_len chunk_len n : ℕ) (iov : Iovec)
    → chunk_len * n ≤ buffer_len
    → Mem iov (carved buffer chunk_len n)
    → IsPiece buffer buffer_len chunk_len iov
carved-IsPiece buffer buffer_len chunk_len zero iov h m = absurd (not-mem-nil m)
carved-IsPiece buffer buffer_len chunk_len (suc n) iov h m =
    Or.elim (hlevel (le_prop)) (mem-cons.0 m)
      (λ same. omega (arith, h, mul-suc chunk_len n, ap (λ i. i.base) same, ap (λ i. i.len) same))
      (λ later.
        carved-IsPiece buffer buffer_len chunk_len n iov (omega (arith, mul-suc chunk_len n)) later)

free-IsPiece :
    (buffer buffer_len chunk_len : ℕ) (p : MemoryPool) (iov : Iovec)
    → p.buffer ≡ buffer
    → p.buffer_len ≡ buffer_len
    → p.chunk_len ≡ chunk_len
    → IsPiece buffer buffer_len chunk_len iov
    → free p iov ≡ ok (record p { pool = iov ∷ p.pool })
unfolding free
free-IsPiece buffer buffer_len chunk_len p iov a b c i = rw (
  le→leb iov.len p.chunk_len (omega (arith, i.0, c)),
  le→leb p.buffer iov.base (omega (arith, i.1, a)),
  le→leb (iov.base + iov.len) (p.buffer + p.buffer_len) (omega (arith, i.2, a, b)),
)

module _ (buffer buffer_len chunk_len : ℕ) (some_bytes : 0 < chunk_len)
    (fits : chunk_len ≤ buffer_len) (in_word : buffer_len < word) where
  out-IsPiece :
      (p : MemoryPool) (out : List Iovec) (iov : Iovec)
      → Shares buffer buffer_len chunk_len p out
      → Mem iov out
      → IsPiece buffer buffer_len chunk_len iov
  out-IsPiece p out iov s m =
      carved-IsPiece buffer buffer_len chunk_len (buffer_len / chunk_len) iov
        (omega (arith, div-add-mod buffer_len chunk_len))
        ((Perm.mem_iff s.split).0 (mem-append_right p.pool m))

  free-Shares :
      (p : MemoryPool) (out : List Iovec) (iov : Iovec)
      → Shares buffer buffer_len chunk_len p out
      → Mem iov out
      → free p iov ≡ ok (record p { pool = iov ∷ p.pool })
  free-Shares p out iov s m =
      free-IsPiece buffer buffer_len chunk_len p iov s.buffer_kept s.buffer_len_kept
        s.chunk_len_kept (out-IsPiece p out iov s m)

  AllFree-Shares :
      (p : MemoryPool) (all out : List Iovec)
      → Shares buffer buffer_len chunk_len p all
      → ((iov : Iovec) → Mem iov out → Mem iov all)
      → AllFree p out
  AllFree-Shares p all [] s m = tt
  AllFree-Shares p all (iov ∷ out) s m = (
    free-Shares p all iov s (m iov mem-cons_self),
    AllFree-Shares p all out s (λ i h. m i (mem-cons_of_mem iov h)),
  )

  Reachable-split :
      (p : MemoryPool) (out : List Iovec)
      → Reachable buffer buffer_len chunk_len p out
      → Shares buffer buffer_len chunk_len p out
  unfolding alloc
  Reachable-split p out (created q e) =
      let g =
        ok-injective (sym e ∙ create-carved buffer buffer_len chunk_len some_bytes fits in_word) in
      rw g record {
        buffer_kept = refl;
        buffer_len_kept = refl;
        chunk_len_kept = refl;
        split = rw append-nil (Perm.refl _);
      }
  Reachable-split p out (allocated q p' out' iov r e) =
      let s = Reachable-split q out' r in
      let (rest, f, g) = take_back-inv q p' q.pool iov e in
      rw g record {
        buffer_kept = s.buffer_kept;
        buffer_len_kept = s.buffer_len_kept;
        chunk_len_kept = s.chunk_len_kept;
        split = Perm.trans (perm_middle rest out') (rw f at s.split);
      }
  Reachable-split p out (freed q p' before after iov r e) =
      let s = Reachable-split q (before ++ iov ∷ after) r in
      let g = ok-injective (
        sym e
        ∙ free-Shares q (before ++ iov ∷ after) iov s (mem-append_right before mem-cons_self)) in
      rw g record {
        buffer_kept = s.buffer_kept;
        buffer_len_kept = s.buffer_len_kept;
        chunk_len_kept = s.chunk_len_kept;
        split =
            Perm.trans (Perm.symm (perm_middle q.pool (before ++ after)))
              (Perm.trans (Perm.append_left q.pool (Perm.symm (perm_middle before after))) s.split);
      }

-- After any calls of `alloc` and `free`, the latter for pieces that are handed out, the pieces in
-- the pool and those handed out are together those that were cut, and `free` takes each piece that
-- is handed out.
pub Reachable-Shares :
    (buffer buffer_len chunk_len : ℕ) (p : MemoryPool) (out : List Iovec)
    → 0 < chunk_len
    → chunk_len ≤ buffer_len
    → buffer_len < word
    → Reachable buffer buffer_len chunk_len p out
    → Shares buffer buffer_len chunk_len p out × AllFree p out
Reachable-Shares buffer buffer_len chunk_len p out h k g r =
    let s = Reachable-split buffer buffer_len chunk_len h k g p out r in
    (s, AllFree-Shares buffer buffer_len chunk_len h k g p out out s (λ iov m. m))
