-- ===== src/Accumulator/Mark.antt =====
-- Taking a multievent back by its address: the address tells which one it is.
use mathlib.Core.Path.{subst}
use mathlib.Core.Option.{some-injective}
use lseb.Prelude.{
  ℕ, zero, suc, ◌+◌, ◌≤◌, ◌<◌, ◌≡◌, ◌≢◌, inl, inr, refl, sym, ap, ◌∙◌, arith, Bool, true, false,
  List, [], ◌∷◌, length, ok, err, assert_failed, ◌>>=◌, get_elem?, set, some, eq→==, ne→==_false,
  if◌then◌else◌, ◌++◌,
}
use lseb.DataFormat.{EventMetaData, Memory}
use lseb.Accumulator.{mark}
use lseb.Accumulator.Window.{IsTable, extent}
use lseb.Accumulator.Invariant.{Numbered}
use lseb.Accumulator.Disjoint.{extent_in, extent-Disjoint}

module _ {metadata : Memory EventMetaData} {lo hi dlo dhi k count : ℕ}
    (t : IsTable metadata lo hi dlo dhi k count) where
  pub base-ne :
      (i j : ℕ)
      → i < j
      → j < i + count
      → (extent metadata lo dlo k count i).base ≢ (extent metadata lo dlo k count j).base
  base-ne i j h g e = elim (extent-Disjoint t i j h g) [
    | inl b ↦ omega (arith, extent_in t i)
    | inr b ↦ omega (arith, extent_in t j)
  ]

  -- The address of the multievent behind `i` others.
  address_at :
      (q : ℕ) (out : List (ℕ × Bool)) (i p : ℕ) (d : Bool)
      → Numbered metadata lo dlo k count q out
      → get_elem? out i ≡ some (p, d)
      → (p ≡ (extent metadata lo dlo k count (q + i)).base) × (i < length out)
  address_at q [] i p d v e = cc
  address_at q ((r, c) ∷ out) zero p d v e = (
    ap (λ m. m.0) (sym (some-injective _ _ e))
        ∙ v.0
        ∙ ap (λ m. (extent metadata lo dlo k count m).base) (omega arith),
    omega arith,
  )
  address_at q ((r, c) ∷ out) (suc i) p d v e =
      let (f, g) = address_at (suc q) out i p d v.1 e in
      (f ∙ ap (λ m. (extent metadata lo dlo k count m).base) (omega arith), omega arith)

  -- Of the multievents that are out, no more than the ring holds and in the order in which they were
  -- handed out, an address names exactly one: giving it back marks that one and no other, and fails
  -- the assertion if it came back before.
  pub mark-set :
      (q : ℕ) (out : List (ℕ × Bool)) (i p : ℕ) (d : Bool)
      → length out ≤ count
      → Numbered metadata lo dlo k count q out
      → get_elem? out i ≡ some (p, d)
      → mark p out ≡ (if d then err assert_failed else ok (set out i (p, true)))
  unfolding mark
  mark-set q [] i p d h v e = cc
  mark-set q ((r, c) ∷ out) zero p d h v e =
      let f = some-injective _ _ e in
      rw (eq→== r p (ap (λ m. m.0) f), ap (λ m. m.1) f)
        (ap (λ m. if d then err assert_failed else ok ((m, true) ∷ out)) (ap (λ m. m.0) f))
  mark-set q ((r, c) ∷ out) (suc i) p d h v e =
      let (f, g) = address_at (suc q) out i p d v.1 e in
      let other : r ≢ p =
        λ same. base-ne q (suc q + i) (omega arith) (omega arith) (sym v.0 ∙ same ∙ f) in
      rw (ne→==_false r p other, mark-set (suc q) out i p d (omega arith) v.1 e) (rest d)
    where
      rest :
          (d : Bool)
          → ((if d then err assert_failed else ok (set out i (p, true))) >>= λ r'. ok ((r, c) ∷ r'))
            ≡ (if d then err assert_failed else ok ((r, c) ∷ set out i (p, true)))
      rest true = refl
      rest false = refl

  -- A multievent that is handed out takes the next number.
  pub Numbered-append :
      (q : ℕ) (out : List (ℕ × Bool)) (d : Bool)
      → Numbered metadata lo dlo k count q out
      → Numbered metadata lo dlo k count q
          (out ++ ((extent metadata lo dlo k count (q + length out)).base, d) ∷ [])
  Numbered-append q [] d v = (ap (λ m. (extent metadata lo dlo k count m).base) (omega arith), tt)
  Numbered-append q ((r, c) ∷ out) d v = (
    v.0,
    let next : suc q + length out ≡ q + suc (length out) = omega arith in
        subst
          (λ n.
            Numbered metadata lo dlo k count (suc q)
              (out ++ ((extent metadata lo dlo k count n).base, d) ∷ []))
          next (Numbered-append (suc q) out d v.1),
  )
