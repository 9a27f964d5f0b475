-- ===== src/Generator/Layout.antt =====
-- How a filled ring of events looks in memory: the entry of event `j` is in slot `j`, and the events
-- stand one behind the other in the data.
use lseb.Prelude.{
  ℕ, zero, suc, ◌+◌, ◌≤◌, ◌<◌, ◌≡◌, ◌≢◌, refl, arith, ap, dec_lt, sym, ◌∙◌, ne→==_false, eq→==,
}
use lseb.DataFormat.{EventMetaData, EventHeader, event_header_size, Memory, write}

-- The bytes of the first `j` events.
unfoldable pub total : Memory EventMetaData → ℕ → ℕ → ℕ
total metadata lo zero = 0
total metadata lo (suc j) = total metadata lo j + (metadata (lo + j)).length

-- Event `j` of source `id`: its metadata stands in slot `lo + j`, and its header at the address that
-- the metadata names, from `dlo` on.
pub record Placed (metadata : Memory EventMetaData) (headers : Memory EventHeader)
    (lo dlo id cap j : ℕ) : Type 0 where
  pub id_at : (metadata (lo + j)).id ≡ j
  pub offset_at : (metadata (lo + j)).offset ≡ total metadata lo j
  pub long : event_header_size ≤ (metadata (lo + j)).length
  pub short : (metadata (lo + j)).length ≤ cap
  pub header_at :
      headers (dlo + (metadata (lo + j)).offset)
      ≡ record { id = j; length = (metadata (lo + j)).length; flags = id }

write-ne : {A : Type 0} (m : Memory A) (p : ℕ) (v : A) (q : ℕ) → q ≢ p → write m p v q ≡ m q
write-ne m p v q h = rw (ne→==_false q p h)

write_self : {A : Type 0} (m : Memory A) (p : ℕ) (v : A) → write m p v p ≡ v
write_self m p v = rw (eq→== p p refl)

pub total_mono :
    (metadata : Memory EventMetaData) (lo i j : ℕ)
    → i ≤ j
    → total metadata lo i ≤ total metadata lo j
unfolding total
total_mono metadata lo zero zero h = omega arith
total_mono metadata lo (suc i) zero h = absurd (omega arith)
total_mono metadata lo i (suc j) h = elim (dec_lt j i) [
  | yes k ↦ let e : i ≡ suc j = omega arith in rw e (omega arith)
  | no k ↦ omega (arith, total_mono metadata lo i j (omega arith))
]

-- A write to slot `i` changes no sum of the events before it.
total-write :
    (metadata : Memory EventMetaData) (lo i : ℕ) (v : EventMetaData) (j : ℕ)
    → j ≤ i
    → total (write metadata (lo + i) v) lo j ≡ total metadata lo j
unfolding total
total-write metadata lo i v zero h = refl
total-write metadata lo i v (suc j) h = rw (
  total-write metadata lo i v j (omega arith),
  write-ne metadata (lo + i) v (lo + j) (omega arith),
)

module _ (metadata : Memory EventMetaData) (headers : Memory EventHeader)
    (lo dlo id cap i n : ℕ) where
  abbrev entry : EventMetaData
  entry = record { id = i; length = n; offset = total metadata lo i }

  abbrev pub metadata' : Memory EventMetaData
  metadata' = write metadata (lo + i) entry

  abbrev pub headers' : Memory EventHeader
  headers' = write headers (dlo + total metadata lo i) (record { id = i; length = n; flags = id })

  pub total-next : total metadata' lo (suc i) ≡ total metadata lo i + n
  unfolding total
  total-next =
      rw (total-write metadata lo i entry i (omega arith), write_self metadata (lo + i) entry)

  Placed-new : event_header_size ≤ n → n ≤ cap → Placed metadata' headers' lo dlo id cap i
  Placed-new long short =
      let e : metadata' (lo + i) ≡ entry = write_self metadata (lo + i) entry in
      record {
        id_at = ap (λ t. t.id) e;
        offset_at = ap (λ t. t.offset) e ∙ sym (total-write metadata lo i entry i (omega arith));
        long = rw e long;
        short = rw e short;
        header_at =
            ap (λ t. headers' (dlo + t.offset)) e
            ∙ write_self headers (dlo + total metadata lo i) _
            ∙ ap (λ (t : EventMetaData). same_header t) (sym e);
      }
    where
      same_header : EventMetaData → EventHeader
      same_header t = record { id = i; length = t.length; flags = id }

  -- The header of an earlier event ends before the new one begins.
  header_apart :
      (j : ℕ)
      → j < i
      → Placed metadata headers lo dlo id cap j
      → dlo + (metadata (lo + j)).offset ≢ dlo + total metadata lo i
  unfolding total
  header_apart j h p = omega (arith, total_mono metadata lo (suc j) i h, p.offset_at, p.long)

  Placed-old :
      (j : ℕ)
      → j < i
      → Placed metadata headers lo dlo id cap j
      → Placed metadata' headers' lo dlo id cap j
  Placed-old j h p =
      let e : metadata' (lo + j) ≡ metadata (lo + j) =
        write-ne metadata (lo + i) entry (lo + j) (omega arith) in
      record {
        id_at = ap (λ t. t.id) e ∙ p.id_at;
        offset_at =
            ap (λ t. t.offset) e
            ∙ p.offset_at
            ∙ sym (total-write metadata lo i entry j (omega arith));
        long = rw e p.long;
        short = rw e p.short;
        header_at =
            ap (λ t. headers' (dlo + t.offset)) e
            ∙ write-ne headers _ _ (dlo + (metadata (lo + j)).offset) (header_apart j h p)
            ∙ p.header_at
            ∙ ap (λ (t : EventMetaData). same_header t) (sym e);
      }
    where
      same_header : EventMetaData → EventHeader
      same_header t = record { id = j; length = t.length; flags = id }

  -- Event `i` is placed behind those before it, and these stay as they are.
  pub Placed-write :
      event_header_size ≤ n
      → n ≤ cap
      → ((j : ℕ) → j < i → Placed metadata headers lo dlo id cap j)
      → (j : ℕ) → j < suc i
      → Placed metadata' headers' lo dlo id cap j
  Placed-write long short old j h = elim (dec_lt j i) [
    | yes k ↦ Placed-old j k (old j k)
    | no k ↦ let e : j ≡ i = omega arith in rw e (Placed-new long short)
  ]
