-- ===== src/LengthGenerator/Lengths.antt =====
-- The lengths that are drawn, cut to their bounds.
use lseb.Prelude.{
  ℕ, ◌+◌, ◌-◌, ◌≤◌, ◌<◌, ◌≡◌, refl, arith, ok, err, undefined, ◌⊎◌, inl, inr, negsuc, ◌==◌,
  if◌then◌else◌, word, pos, le→leb, lt→ltb, ne→==_false, dec_lt,
}
use lseb.DataFormat.{event_header_size}
use lseb.LengthGenerator.{LengthGenerator, create, generate, to_size}

-- What Boost documents of `clamp` for bounds in order.
pub record Clamps (clamp : ℕ → ℕ → ℕ → ℕ) : Type 0 where
  pub below : (v lo hi : ℕ) → lo ≤ hi → v < lo → clamp v lo hi ≡ lo
  pub above : (v lo hi : ℕ) → lo ≤ hi → hi < v → clamp v lo hi ≡ hi
  pub between : (v lo hi : ℕ) → lo ≤ v → v ≤ hi → clamp v lo hi ≡ v

-- The generator's smallest length.
abbrev pub least : ℕ → ℕ → ℕ → ℕ
least mean stddev min = if stddev == 0 then mean else min

-- What is left of a number that is cut to the bounds.
abbrev pub Cut : ℕ → ℕ → ℕ → ℕ → Type 0
Cut lo hi drawn n =
    ((drawn < lo) × (n ≡ lo))
    ⊎ ((hi < drawn) × (n ≡ hi))
    ⊎ ((lo ≤ drawn) × (drawn ≤ hi) × (n ≡ drawn))

clamp-Cut :
    (clamp : ℕ → ℕ → ℕ → ℕ) → Clamps clamp → (v lo hi : ℕ) → lo ≤ hi → Cut lo hi v (clamp v lo hi)
clamp-Cut clamp c v lo hi h = elim (dec_lt v lo) [
  | yes under ↦ inl (under, c.below v lo hi h under)
  | no from ↦ elim (dec_lt hi v) [
    | yes over ↦ inr (inl (over, c.above v lo hi h over))
    | no within ↦
        inr (inr (omega arith, omega arith, c.between v lo hi (omega arith) (omega arith)))
  ]
]

Cut-between : (lo hi drawn n : ℕ) → lo ≤ hi → Cut lo hi drawn n → (lo ≤ n) × (n ≤ hi)
Cut-between lo hi drawn n h (inl (_, e)) = omega (arith, h, e)
Cut-between lo hi drawn n h (inr (inl (_, e))) = omega (arith, h, e)
Cut-between lo hi drawn n h (inr (inr (k, l, e))) = omega (arith, k, l, e)

-- The generator of lengths up to the longest payload is constructed if the bounds surround the mean,
-- also with the least length 0 with which the program builds it. A number drawn that is not negative
-- is cut to the bounds: below the least length it gives that, above the longest payload that, and
-- else itself. So header and payload fit a fragment, and without deviation no length is below the
-- mean. A negative number is undefined as a length.
pub generate-Cut :
    (clamp : ℕ → ℕ → ℕ → ℕ) (cap mean stddev min drawn : ℕ)
    → Clamps clamp
    → cap < word
    → drawn < word
    → min ≤ mean
    → 0 < mean
    → event_header_size + mean ≤ cap
    → let lo = least mean stddev min in
      (g : LengthGenerator) × (create mean stddev (cap - event_header_size) min ≡ ok g)
      × (n : ℕ) × (generate clamp g (pos drawn) ≡ ok n)
      × Cut lo (cap - event_header_size) drawn n
      × (lo ≤ n)
      × (event_header_size + n ≤ cap)
      × (generate clamp g (negsuc drawn) ≡ err undefined)
unfolding create generate to_size
generate-Cut clamp cap mean stddev min drawn c h k l p f =
    let hi : ℕ = cap - event_header_size in
    let lo : ℕ = least mean stddev min in
    let lo_below : lo ≤ mean = ground arith in
    let in_order : lo ≤ hi = omega (arith, lo_below) in
    let between = Cut-between lo hi drawn _ in_order (clamp-Cut clamp c drawn lo hi in_order) in
    (
      record { max = hi; min = lo },
      rw (ne→==_false hi 0 (omega arith), le→leb lo mean lo_below, le→leb mean hi (omega arith)),
      clamp drawn lo hi,
      rw (lt→ltb drawn word k),
      clamp-Cut clamp c drawn lo hi in_order,
      between.0,
      omega (arith, between.1),
      refl,
    )
