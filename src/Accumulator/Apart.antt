-- ===== src/Accumulator/Apart.antt =====
-- `get_multievent`: the memory that it hands out is no other multievent's.
use lseb.Prelude.{
  ℕ, suc, ◌+◌, ◌≤◌, ◌<◌, ◌≡◌, refl, sym, arith, Bool, List, [], ◌∷◌, length, word, ok, Option, some,
  none, ◌⊎◌, inl, inr,
}
use lseb.DataFormat.{EventMetaData, Iovec, Memory}
use lseb.Controller.{Controller}
use lseb.Accumulator.{Accumulator, get_multievent}
use lseb.Accumulator.Window.{IsTable, extent}
use lseb.Accumulator.Invariant.{state, Runs, Numbered}
use lseb.Accumulator.Acquire.{get_multievent-Acquired, total_events}
use lseb.Accumulator.Disjoint.{Disjoint, extent_in, extent-Disjoint, out_few}

-- The multievents that are out stand at these addresses, from number `j` on, and none of them shares a byte with `iov`.
abbrev pub Apart : Memory EventMetaData → ℕ → ℕ → ℕ → ℕ → ℕ → List (ℕ × Bool) → Iovec → Type 0
Apart metadata lo dlo k count j [] iov = Unit {0}
Apart metadata lo dlo k count j ((p, d) ∷ out) iov =
    ((extent metadata lo dlo k count j).base ≡ p)
    × Disjoint (extent metadata lo dlo k count j) iov
    × Apart metadata lo dlo k count (suc j) out iov

module _ {metadata : Memory EventMetaData} {lo hi dlo dhi k count : ℕ}
    (t : IsTable metadata lo hi dlo dhi k count) where
  Apart-extent :
      (j n : ℕ) (out : List (ℕ × Bool))
      → j + length out ≡ n
      → length out < count
      → Numbered metadata lo dlo k count j out
      → Apart metadata lo dlo k count j out (extent metadata lo dlo k count n)
  Apart-extent j n [] e h v = tt
  Apart-extent j n ((p, d) ∷ out) e h v = (
    sym v.0,
    extent-Disjoint t j n (omega (arith, e)) (omega (arith, e, h)),
    Apart-extent (suc j) n out (omega (arith, e)) (omega arith) v.1,
  )

  -- In a state of the invariant, in which the multievents that are out stand at their addresses, and
  -- with no fewer events due than were made, `get_multievent` hands out nothing exactly if there are
  -- too few events, also with those that the controller adds. Otherwise it hands out a piece with at
  -- least a byte, which lies in the memory of the data and shares none of it with a multievent that
  -- is out.
  pub get_multievent-Apart :
      {base : ℕ} (c : Controller) (q g : ℕ) (out : List (ℕ × Bool))
      (runs : Runs lo hi dlo dhi k base c q g out) (due : ℕ) (later : c.generated_events ≤ due)
      (in_word : due < word)
      → Numbered metadata lo dlo k count q out
      → (a' : Accumulator) × (p : Option Iovec) × (get_multievent metadata
            (state lo hi dlo dhi k c q g out)
            due
          ≡ ok (a', p))
        × (((p ≡ none) × (total_events t c q g out runs due later in_word < k))
            ⊎ ((k ≤ total_events t c q g out runs due later in_word)
                × (iov : Iovec) × (p ≡ some iov)
                × (dlo ≤ iov.base)
                × (0 < iov.len)
                × (iov.base + iov.len ≤ dhi)
                × Apart metadata lo dlo k count q out iov))
  get_multievent-Apart c q g out runs due later in_word v =
      let (c', g', _, cases) = get_multievent-Acquired t c q g out runs due later in_word in
      elim cases [
        | inl (e, few, same, _) ↦ (_, _, e, inl (refl, omega (arith, few, same)))
        | inr (e, same, _) ↦
            let place = extent_in t (q + length out) in
            (
              _,
              _,
              e,
              inr (
                omega (arith, same),
                _,
                refl,
                place.0,
                place.1,
                place.2,
                Apart-extent q (q + length out) out refl (out_few t q g out runs) v,
              ),
            )
      ]
