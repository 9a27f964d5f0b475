-- ===== src/MemoryPool/Carving.antt =====
-- The constructor: it cuts as many whole pieces as the buffer holds.
use native.Mathlib.Nat.{mul-suc, mul-zero, mul-le-mul_left, div-add-mod, mod-lt, div-le_self}
use lseb.Prelude.{
  ℕ, zero, suc, ◌+◌, ◌-◌, ◌*◌, ◌/◌, ◌≤◌, ◌<◌, ◌≡◌, refl, ap, arith, ok, List, [], ◌∷◌, length,
  add_size, word, le→leb, lt→leb_false,
}
use lseb.DataFormat.{Iovec}
use lseb.MemoryPool.{carve, create}

-- The first `n` pieces, the last one first.
abbrev pub carved : ℕ → ℕ → ℕ → List Iovec
carved buffer chunk_len zero = []
carved buffer chunk_len (suc n) =
    record { base = buffer + chunk_len * n; len = chunk_len } ∷ carved buffer chunk_len n

pub length-carved : (buffer chunk_len n : ℕ) → length (carved buffer chunk_len n) ≡ n
length-carved buffer chunk_len zero = refl
length-carved buffer chunk_len (suc n) = ap suc (length-carved buffer chunk_len n)

module _ (buffer chunk_len buffer_len : ℕ) (some_bytes : 0 < chunk_len)
    (fits : chunk_len ≤ buffer_len) (in_word : buffer_len < word) where
  -- From piece `n` on, `rest` more pieces fit, and no further one.
  carve-carved :
      (fuel n rest total : ℕ)
      → n + rest ≡ total
      → rest < fuel
      → chunk_len * total ≤ buffer_len
      → buffer_len < chunk_len * total + chunk_len
      → carve fuel buffer chunk_len
          (buffer_len - chunk_len)
          (chunk_len * n)
          (carved buffer chunk_len n)
        ≡ ok (carved buffer chunk_len total)
  unfolding carve
  carve-carved zero n rest total e f h k = absurd (omega arith)
  carve-carved (suc fuel) n zero total e f h k =
      let same : n ≡ total = omega arith in
      let beyond : buffer_len - chunk_len < chunk_len * n =
        omega (arith, ap (λ t. chunk_len * t) same) in
      rw (carve, lt→leb_false (chunk_len * n) (buffer_len - chunk_len) beyond)
        (ap (λ t. ok (carved buffer chunk_len t)) same)
  carve-carved (suc fuel) n (suc rest) total e f h k =
      let below : chunk_len * suc n ≤ chunk_len * total = mul-le-mul_left chunk_len (omega arith) in
      let inside : chunk_len * n ≤ buffer_len - chunk_len =
        omega (arith, mul-suc chunk_len n, below) in
      let step : add_size (chunk_len * n) chunk_len ≡ chunk_len * suc n =
        omega (arith, mul-suc chunk_len n, below) in
      rw (carve, le→leb (chunk_len * n) (buffer_len - chunk_len) inside, step)
        (carve-carved fuel (suc n) rest total (omega arith) (omega arith) h k)

-- For a piece length above 0 and no longer than the buffer, and sizes of 64 bits, the constructor
-- ends. The pool then holds as many pieces as fit into the buffer, one behind the other from its
-- begin on, the last one first.
pub create-carved :
    (buffer buffer_len chunk_len : ℕ)
    → 0 < chunk_len
    → chunk_len ≤ buffer_len
    → buffer_len < word
    → create buffer buffer_len chunk_len
      ≡ ok (record {
        buffer = buffer;
        chunk_len = chunk_len;
        buffer_len = buffer_len;
        pool = carved buffer chunk_len (buffer_len / chunk_len);
      })
unfolding create
create-carved buffer buffer_len chunk_len h k g =
    let pieces : ℕ = buffer_len / chunk_len in
    let start : chunk_len * 0 ≡ 0 = mul-zero chunk_len in
    let e =
      carve-carved buffer chunk_len buffer_len h k g (suc buffer_len) 0 pieces pieces (omega arith)
        (omega (arith, div-le_self buffer_len chunk_len))
        (omega (arith, div-add-mod buffer_len chunk_len))
        (omega (arith, div-add-mod buffer_len chunk_len, mod-lt buffer_len h)) in
    rw (le→leb chunk_len buffer_len k, rw start at e)
