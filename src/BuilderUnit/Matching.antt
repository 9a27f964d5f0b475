-- ===== src/BuilderUnit/Matching.antt =====
-- The pieces of all senders that have one number: the builder unit finds that their data match.
use lseb.Prelude.{
  ℕ, ◌+◌, ◌-◌, ◌*◌, ◌%◌, ◌<◌, ◌≡◌, sym, ap, ◌∙◌, arith, true, List, [], ◌∷◌, ok, inl, inr, eq→==,
}
use lseb.DataFormat.{EventHeader, Iovec, Memory}
use lseb.Generator.{Built}
use lseb.Generator.Construct.{IsBuilt}
use lseb.Accumulator.Window.{IsTable, extent, block_in}
use lseb.BuilderUnit.{Link, check_data, front_header}
use lseb.BuilderUnit.Checking.{All, HasFront, Starts, check_data-Starts}

-- A node whose generator laid out `count` multievents of `k` events.
pub record Sender (k count : ℕ) : Type 0 where
  pub lo : ℕ
  pub hi : ℕ
  pub dlo : ℕ
  pub dhi : ℕ
  pub id : ℕ
  pub cap : ℕ
  pub built : Built
  pub is_built : IsBuilt lo hi dlo dhi id cap built
  pub is_table : IsTable built.metadata lo hi dlo dhi k count

-- The memory of the sender's multievent `j`.
abbrev pub piece : {k count : ℕ} → Sender k count → ℕ → Iovec
piece {k} {count} s j = extent s.built.metadata s.lo s.dlo k count j

-- The link's first piece holds at its start the header that stands at the start of multievent `j` of its sender.
abbrev pub Received : {k count : ℕ} → Memory EventHeader → ℕ → Sender k count → Link → Type 0
Received headers j s link =
    (iov : Iovec) × (iovs : List Iovec) × (link.iov_vect ≡ iov ∷ iovs)
    × (iov.base % 8 ≡ 0)
    × (headers iov.base ≡ s.built.headers (piece s j).base)

-- Each link has its sender.
abbrev pub AllReceived :
    {k count : ℕ} → Memory EventHeader → ℕ → List (Sender k count) → List Link → Type 0
AllReceived headers j senders [] = Unit {0}
AllReceived headers j [] (link ∷ links) = ⊥
AllReceived headers j (s ∷ senders) (link ∷ links) =
    Received headers j s link × AllReceived headers j senders links

module _ {k count : ℕ} where
  first_slot : (s : Sender k count) (j : ℕ) → k * (j % count) < s.hi - s.lo
  first_slot s j = omega (arith, block_in s.is_table j, s.is_table.some_events)

  -- The header at the start of a multievent is that of its first event.
  header-eq :
      (s : Sender k count) (j : ℕ)
      → s.built.headers (piece s j).base ≡ record {
        id = k * (j % count);
        length = (s.built.metadata (s.lo + k * (j % count))).length;
        flags = s.id;
      }
  unfolding extent
  header-eq s j =
      let p = s.is_built.placed (k * (j % count)) (first_slot s j) in
      ap (λ o. s.built.headers (s.dlo + o)) (sym p.offset_at) ∙ p.header_at

  front-Starts :
      (headers : Memory EventHeader) (j : ℕ) (s : Sender k count) (link : Link)
      → Received headers j s link
      → HasFront link × Starts headers (k * (j % count)) link
  unfolding front_header
  front-Starts headers j s link (iov, iovs, e, a, same) =
      let p = s.is_built.placed (k * (j % count)) (first_slot s j) in
      let h = same ∙ header-eq s j in
      (
        (iov, iovs, e, a),
        (
          headers iov.base,
          rw (e, eq→== (iov.base % 8) 0 a),
          ap (λ x. x.id) h,
          λ empty. omega (arith, p.long, empty, ap (λ x. x.length) h),
        ),
      )

  links-Starts :
      (headers : Memory EventHeader) (j : ℕ) (senders : List (Sender k count)) (links : List Link)
      → AllReceived headers j senders links
      → All HasFront links × All (Starts headers (k * (j % count))) links
  links-Starts headers j senders [] r = (tt, tt)
  links-Starts headers j [] (link ∷ links) r = absurd r
  links-Starts headers j (s ∷ senders) (link ∷ links) (r, rs) =
      let (f, g) = front-Starts headers j s link r in
      let (fs, gs) = links-Starts headers j senders links rs in ((f, fs), (g, gs))

  -- If the first piece of each link carries the header of its sender's multievent of one number, the
  -- same for all links, then `check_data` accepts the pieces.
  pub check_data-matches :
      (headers : Memory EventHeader) (j : ℕ) (senders : List (Sender k count)) (link : Link)
      (links : List Link)
      → AllReceived headers j senders (link ∷ links)
      → check_data headers (link ∷ links) ≡ ok true
  check_data-matches headers j senders link links r =
      let (fronts, starts) = links-Starts headers j senders (link ∷ links) r in
      elim (check_data-Starts headers link links fronts) [
        | inl (e, _, _) ↦ e
        | inr (_, n) ↦ absurd (n (k * (j % count)) starts)
      ]
