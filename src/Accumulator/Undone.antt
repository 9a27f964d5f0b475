-- ===== src/Accumulator/Undone.antt =====
-- The multievents that did not come back yet, by their addresses.
use mathlib.Core.List.{Perm, Mem, mem-cons, not-mem-nil, mem-cons_self, Nodup, Nodup-cons, Pairwise}
use mathlib.Core.List.Perm
use mathlib.Core.HLevel.{⊥_prop}
use mathlib.Core.Logic.Or
use mathlib.Core.Path.{subst}
use mathlib.Core.Option.{some-injective}
use lseb.Prelude.{
  ℕ, zero, suc, ◌+◌, ◌≤◌, ◌<◌, ◌≡◌, ◌∙◌, refl, sym, ap, arith, Bool, true, false, List, [], ◌∷◌,
  ◌++◌, length, drop, length-drop, map, get_elem?, set, length-set, some, ok, ◌⊎◌, inl, inr,
  ℕ_discrete,
}
use lseb.DataFormat.{EventMetaData, Memory}
use lseb.Controller.{Controller}
use lseb.Accumulator.{mark_all, release_multievents, released_prefix}
use lseb.Accumulator.Window.{IsTable, extent}
use lseb.Accumulator.Invariant.{state, Runs, Numbered}
use lseb.Accumulator.Disjoint.{out_few}
use lseb.Accumulator.Mark.{base-ne, mark-set}
use lseb.Accumulator.Release.{
  release_multievents-released_prefix, addresses-mark_all, released_prefix-le, length-mark_all,
}
use lseb.Accumulator.History.{Numbered-addresses, Numbered-drop}

abbrev pub undone : List (ℕ × Bool) → List ℕ
undone [] = []
undone ((p, true) ∷ out) = undone out
undone ((p, false) ∷ out) = p ∷ undone out

pub undone-append :
    (out : List (ℕ × Bool)) (p : ℕ) → undone (out ++ (p, false) ∷ []) ≡ undone out ++ p ∷ []
undone-append [] p = refl
undone-append ((r, true) ∷ out) p = undone-append out p
undone-append ((r, false) ∷ out) p = ap (λ l. r ∷ l) (undone-append out p)

-- What is dropped from the front has come back.
undone-drop : (out : List (ℕ × Bool)) → undone (drop (released_prefix out) out) ≡ undone out
unfolding released_prefix
undone-drop [] = refl
undone-drop ((p, true) ∷ out) = undone-drop out
undone-drop ((p, false) ∷ out) = refl

-- The place of an address that did not come back.
place_of :
    (p : ℕ) (out : List (ℕ × Bool))
    → ((i : ℕ) × (get_elem? out i ≡ some (p, false))) ⊎ (¬ Mem p (undone out))
place_of p [] = inr not-mem-nil
place_of p ((r, true) ∷ out) = elim (place_of p out) [ inl (i, e) ↦ inl (suc i, e) | inr n ↦ inr n ]
place_of p ((r, false) ∷ out) = elim (ℕ_discrete p r) [
  | yes same ↦ inl (0, rw same refl)
  | no other ↦ elim (place_of p out) [
    | inl (i, e) ↦ inl (suc i, e)
    | inr n ↦ inr (λ m. Or.elim ⊥_prop (mem-cons.0 m) other n)
  ]
]

undone-set :
    (out : List (ℕ × Bool)) (i p : ℕ)
    → get_elem? out i ≡ some (p, false)
    → Perm (undone out) (p ∷ undone (set out i (p, true)))
undone-set [] i p e = cc
undone-set ((r, true) ∷ out) zero p e = let f = ap (λ m. m.1) (some-injective _ _ e) in cc f
undone-set ((r, false) ∷ out) zero p e =
    let f = ap (λ m. m.0) (some-injective _ _ e) in rw f (Perm.refl _)
undone-set ((r, true) ∷ out) (suc i) p e = undone-set out i p e
undone-set ((r, false) ∷ out) (suc i) p e =
    Perm.trans (Perm.cons r (undone-set out i p e)) (Perm.swap p r _)

addresses-set :
    (out : List (ℕ × Bool)) (i p : ℕ)
    → get_elem? out i ≡ some (p, false)
    → map (λ e. e.0) out ≡ map (λ e. e.0) (set out i (p, true))
addresses-set [] i p e = cc
addresses-set ((r, d) ∷ out) zero p e =
    ap (λ q. q ∷ map (λ e. e.0) out) (ap (λ m. m.0) (some-injective _ _ e))
addresses-set ((r, d) ∷ out) (suc i) p e = ap (λ l. r ∷ l) (addresses-set out i p e)

module _ {metadata : Memory EventMetaData} {lo hi dlo dhi k count : ℕ}
    (t : IsTable metadata lo hi dlo dhi k count) where
  mark_all-undone :
      (q : ℕ) (vect rest : List ℕ) (out : List (ℕ × Bool))
      → length out ≤ count
      → Numbered metadata lo dlo k count q out
      → Perm (undone out) (vect ++ rest)
      → (marked : List (ℕ × Bool)) × (mark_all vect out ≡ ok marked) × Perm (undone marked) rest
  unfolding mark_all
  mark_all-undone q [] rest out h v p = (out, refl, p)
  mark_all-undone q (a ∷ vect) rest out h v p = elim (place_of a out) [
    | inr n ↦ absurd (n ((Perm.mem_iff (Perm.symm p)).0 mem-cons_self))
    | inl (i, e) ↦
        let next = set out i (a, true) in
        let (marked, f, r) =
          mark_all-undone q vect rest next (omega (arith, h, length-set out i (a, true)))
            (Numbered-addresses metadata lo dlo k count q out next (addresses-set out i a e) v)
            (Perm.cons_inv (Perm.trans (Perm.symm (undone-set out i a e)) p)) in
        (marked, rw (mark_all, mark-set t q out i a false h v e) f, r)
  ]

  -- In a state of the invariant, `release_multievents` of addresses that are out, each once, succeeds, and exactly the others are
  -- then still to come back; the new state is again one of the invariant.
  pub release_multievents-undone :
      (base : ℕ) (c : Controller) (q g : ℕ) (out : List (ℕ × Bool)) (vect rest : List ℕ)
      → Runs lo hi dlo dhi k base c q g out
      → Numbered metadata lo dlo k count q out
      → Perm (undone out) (vect ++ rest)
      → (c' : Controller) × (q' : ℕ) × (out' : List (ℕ × Bool)) × (release_multievents
            (state lo hi dlo dhi k c q g out)
            vect
          ≡ ok (state lo hi dlo dhi k c' q' g out'))
        × Runs lo hi dlo dhi k base c' q' g out'
        × Numbered metadata lo dlo k count q' out'
        × Perm (undone out') rest
        × (c'.generated_events ≡ c.generated_events)
        × (q' + length out' ≡ q + length out)
  release_multievents-undone base c q g out vect rest runs v p =
      let (marked, f, r) =
        mark_all-undone q vect rest out (omega (arith, out_few t q g out runs)) v p in
      let n = released_prefix marked in
      let (c', h, runs', made) =
        release_multievents-released_prefix t c q g out vect runs marked f in
      (
        c',
        q + n,
        drop n marked,
        h,
        runs',
        Numbered-drop metadata lo dlo k count n q marked (released_prefix-le marked) (
            Numbered-addresses metadata lo dlo k count q out marked
              (sym (addresses-mark_all vect out marked f)) v),
        subst (λ l. Perm l rest) (sym (undone-drop marked)) r,
        made,
        omega (
          arith,
          length-drop n marked,
          released_prefix-le marked,
          length-mark_all vect out marked f,
        ),
      )

  -- The address of a multievent is none of those behind it, within a turn of the ring.
  not_behind :
      (q r : ℕ) (out : List (ℕ × Bool))
      → q < r
      → r + length out ≤ q + count
      → Numbered metadata lo dlo k count r out
      → ¬ Mem (extent metadata lo dlo k count q).base (undone out)
  not_behind q r [] h g v = not-mem-nil
  not_behind q r ((p, true) ∷ out) h g v =
      not_behind q (suc r) out (omega arith) (omega (arith, g)) v.1
  not_behind q r ((p, false) ∷ out) h g v = λ m.
      Or.elim ⊥_prop (mem-cons.0 m) (λ same. base-ne t q r h (omega (arith, g)) (same ∙ v.0))
        (not_behind q (suc r) out (omega arith) (omega (arith, g)) v.1)

  pub undone-Nodup :
      (q : ℕ) (out : List (ℕ × Bool))
      → length out ≤ count
      → Numbered metadata lo dlo k count q out
      → Nodup (undone out)
  undone-Nodup q [] h v = Pairwise.nil
  undone-Nodup q ((p, true) ∷ out) h v = undone-Nodup (suc q) out (omega (arith, h)) v.1
  undone-Nodup q ((p, false) ∷ out) h v = Nodup-cons.1 (
    rw v.0 (not_behind q (suc q) out (omega arith) (omega (arith, h)) v.1),
    undone-Nodup (suc q) out (omega (arith, h)) v.1,
  )
