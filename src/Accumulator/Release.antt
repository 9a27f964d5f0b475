-- ===== src/Accumulator/Release.antt =====
-- `release_multievents`: what is marked, and which multievents' events go back to the generator.
use native.Mathlib.Nat.{mul-add, mul-le-mul_left, add-zero}
use lseb.Prelude.{
  ℕ, zero, suc, ◌+◌, ◌-◌, ◌*◌, ◌%◌, ◌≤◌, ◌<◌, ◌≡◌, refl, sym, ap, ◌∙◌, arith, Bool, true, false,
  List, [], ◌∷◌, length, take, drop, length-drop, length-map, Result, ok, err, assert_failed, ◌>>=◌,
  int_bound, lt→ltb, ne→==_false, ◌==◌, if◌then◌else◌, map, Bool-cases, inl, inr, >>=-eq-ok,
  ok-injective,
}
use lseb.DataFormat.{EventMetaData, Memory}
use lseb.Range.Positions.{IsRing, advance-slot}
use lseb.Controller.{Controller}
use lseb.Controller.Positions.{Follows-recount, release-Follows}
use lseb.Accumulator.{
  Accumulator, released_prefix, release_contiguous_memory, mark, mark_all, release_multievents,
}
use lseb.Accumulator.Window.{IsTable}
use lseb.Accumulator.Invariant.{state, Runs}

pub released_prefix-le : (out : List (ℕ × Bool)) → released_prefix out ≤ length out
unfolding released_prefix
released_prefix-le [] = omega arith
released_prefix-le ((p, true) ∷ out) = omega (arith, released_prefix-le out)
released_prefix-le ((p, false) ∷ out) = omega arith

-- These multievents came back.
abbrev pub AllBack : List (ℕ × Bool) → Type 0
AllBack [] = Unit {0}
AllBack ((p, d) ∷ out) = (d ≡ true) × AllBack out

-- The first of these multievents, if there is one, has not come back.
abbrev pub FirstOut : List (ℕ × Bool) → Type 0
FirstOut [] = Unit {0}
FirstOut ((p, d) ∷ out) = d ≡ false

released_prefix-AllBack : (out : List (ℕ × Bool)) → AllBack (take (released_prefix out) out)
unfolding released_prefix
released_prefix-AllBack [] = tt
released_prefix-AllBack ((p, true) ∷ out) = (refl, released_prefix-AllBack out)
released_prefix-AllBack ((p, false) ∷ out) = tt

released_prefix-FirstOut : (out : List (ℕ × Bool)) → FirstOut (drop (released_prefix out) out)
unfolding released_prefix
released_prefix-FirstOut [] = tt
released_prefix-FirstOut ((p, true) ∷ out) = released_prefix-FirstOut out
released_prefix-FirstOut ((p, false) ∷ out) = refl

-- Marking changes no address.
pub addresses-mark :
    (p : ℕ) (out out' : List (ℕ × Bool))
    → mark p out ≡ ok out'
    → map (λ m. m.0) out' ≡ map (λ m. m.0) out
unfolding mark
addresses-mark p [] out' e = cc
addresses-mark p ((r, d) ∷ out) out' e = elim (Bool-cases (r == p)) [
  | inl hit ↦ at_hit d (rw hit at e)
  | inr miss ↦
      let (rest, f, g) = >>=-eq-ok (mark p out) (λ r'. ok ((r, d) ∷ r')) (rw miss at e) in
      ap (map (λ m. m.0)) (sym (ok-injective g)) ∙ ap (λ l. r ∷ l) (addresses-mark p out rest f)
]
  where
    at_hit :
        (done : Bool)
        → (if done then err assert_failed else ok ((r, true) ∷ out)) ≡ ok out'
        → map (λ m. m.0) out' ≡ r ∷ map (λ m. m.0) out
    at_hit true f = cc
    at_hit false f = ap (map (λ m. m.0)) (sym (ok-injective f))

pub addresses-mark_all :
    (vect : List ℕ) (out out' : List (ℕ × Bool))
    → mark_all vect out ≡ ok out'
    → map (λ m. m.0) out' ≡ map (λ m. m.0) out
unfolding mark_all
addresses-mark_all [] out out' e = ap (map (λ m. m.0)) (sym (ok-injective e))
addresses-mark_all (p ∷ vect) out out' e =
    let (one, f, g) = >>=-eq-ok (mark p out) (mark_all vect) e in
    addresses-mark_all vect one out' g ∙ addresses-mark p out one f

pub length-mark_all :
    (vect : List ℕ) (out out' : List (ℕ × Bool))
    → mark_all vect out ≡ ok out'
    → length out' ≡ length out
length-mark_all vect out out' e =
    sym (length-map (λ m. m.0) out')
    ∙ ap length (addresses-mark_all vect out out' e)
    ∙ length-map (λ m. m.0) out

module _ {metadata : Memory EventMetaData} {lo hi dlo dhi k count : ℕ}
    (t : IsTable metadata lo hi dlo dhi k count) where
  ring : IsRing (record { begin = lo; end = hi })
  ring = record { some_slots = t.order; small = t.small }

  module _ {base : ℕ} (c : Controller) (q g : ℕ) (out : List (ℕ × Bool))
      (runs : Runs lo hi dlo dhi k base c q g out) where
    -- The events of the first `n` multievents are not more than those that the generator holds.
    held : (n : ℕ) → n ≤ length out → k * n ≤ k * (q + length out) + g - k * q
    held n h = omega (arith, mul-le-mul_left k h, mul-add k q (length out))

    below : (n : ℕ) → n ≤ length out → k * n < hi - lo
    below n h = omega (arith, held n h, runs.counts.one_free, runs.counts.ordered)

    few : (n : ℕ) → n ≤ length out → n < int_bound
    few n h = omega (arith, below n h, t.few, mul-le-mul_left n t.some_events)

    dropped :
        (n : ℕ)
        → n ≤ length out
        → lo + k * (q + length out) % (hi - lo) ≡ lo + k * (q + n + length (drop n out)) % (hi - lo)
    dropped n h = ap (λ m. lo + k * m % (hi - lo)) (omega (arith, length-drop n out))

    released : (n : ℕ) → lo + (k * q + k * n) % (hi - lo) ≡ lo + k * (q + n) % (hi - lo)
    released n = ap (λ m. lo + m % (hi - lo)) (sym (mul-add k q n))

    -- The multievents at the front that came back are dropped, and their events freed in the generator.
    release_contiguous-state :
        (n : ℕ)
        → n ≡ released_prefix out
        → (c' : Controller) × (release_contiguous_memory (state lo hi dlo dhi k c q g out)
            ≡ ok (state lo hi dlo dhi k c' (q + n) g (drop n out), n))
          × Runs lo hi dlo dhi k base c' (q + n) g (drop n out)
          × (c'.generated_events ≡ c.generated_events)
    unfolding release_contiguous_memory
    release_contiguous-state zero e = (
      c,
      rw (← e) (ap (λ m. ok (state lo hi dlo dhi k c m g out, 0)) (sym (add-zero q))),
      rw (add-zero q) runs,
      refl,
    )
    release_contiguous-state (suc n) e =
        let h : suc n ≤ length out = omega (arith, released_prefix-le out) in
        let (c', f, runs', same) = release-Follows runs (k * suc n) (held (suc n) h) in
        (
          c',
          rw
              (
                ← e,
                lt→ltb (suc n) int_bound (few (suc n) h),
                lt→ltb (k * suc n) int_bound (omega (arith, below (suc n) h, t.few)),
                ne→==_false (suc n) 0 (omega arith),
                advance-slot ring (k * q) (k * suc n) (omega (arith, below (suc n) h)),
                f,
              )
              (λ i. ok (
                record (state lo hi dlo dhi k c' (q + suc n) g (drop (suc n) out)) {
                  current_metadata = dropped (suc n) h i;
                  release_metadata = released (suc n) i;
                },
                suc n,
              )),
          Follows-recount runs' (sym (mul-add k q (suc n)))
              (ap (λ m. k * m + g) (omega (arith, length-drop (suc n) out))),
          same,
        )

  module _ {base : ℕ} (c : Controller) (q g : ℕ) (out : List (ℕ × Bool)) (vect : List ℕ)
      (runs : Runs lo hi dlo dhi k base c q g out) where
    -- What `release_multievents` comes to, by the number that the code counts.
    pub release_multievents-released_prefix :
        (marked : List (ℕ × Bool))
        → mark_all vect out ≡ ok marked
        → let n = released_prefix marked in
          (c' : Controller) × (release_multievents (state lo hi dlo dhi k c q g out) vect
            ≡ ok (state lo hi dlo dhi k c' (q + n) g (drop n marked)))
          × Runs lo hi dlo dhi k base c' (q + n) g (drop n marked)
          × (c'.generated_events ≡ c.generated_events)
    unfolding release_multievents
    release_multievents-released_prefix marked e =
        let same : length out ≡ length marked = sym (length-mark_all vect out marked e) in
        let runs' : Runs lo hi dlo dhi k base c q g marked = rw same at runs in
        let (c', f, runs'', made) =
          release_contiguous-state c q g marked runs' (released_prefix marked) refl in
        let finish : Accumulator × ℕ → Result Accumulator = λ (a, n). ok a in
        (
          c',
          rw e (
              ap
                (λ m.
                  release_contiguous_memory (record (state lo hi dlo dhi k c q g marked) {
                    current_metadata = lo + k * (q + m) % (hi - lo);
                  })
                  >>= finish)
                same
              ∙ ap (λ r. r >>= finish) f),
          runs'',
          made,
        )

    -- In a state of the invariant, if the addresses can be marked, `release_multievents` drops the
    -- longest run of multievents at the front that all came back, and no other, and frees their
    -- events in the generator: each one that is dropped is marked, and the first one that is left,
    -- if there is one, is not. The new state is again one of the invariant.
    pub release_multievents-state :
        (marked : List (ℕ × Bool))
        → mark_all vect out ≡ ok marked
        → (n : ℕ) × (c' : Controller) × (n ≤ length marked)
          × AllBack (take n marked)
          × FirstOut (drop n marked)
          × (release_multievents (state lo hi dlo dhi k c q g out) vect
              ≡ ok (state lo hi dlo dhi k c' (q + n) g (drop n marked)))
          × Runs lo hi dlo dhi k base c' (q + n) g (drop n marked)
          × (c'.generated_events ≡ c.generated_events)
    release_multievents-state marked e =
        let (c', f, r, made) = release_multievents-released_prefix marked e in
        (
          released_prefix marked,
          c',
          released_prefix-le marked,
          released_prefix-AllBack marked,
          released_prefix-FirstOut marked,
          f,
          r,
          made,
        )
