-- ===== src/Range/Orbit.antt =====
-- The searches and sums over a sub-range, against the list of the slots that it goes through.
use mathlib.Core.List.{foldl}
use mathlib.Core.Path.{ap₂}
use mathlib.Core.Option.{get_or}
use lseb.Prelude.{
  ℕ, zero, suc, ◌+◌, ◌-◌, ◌≤◌, ◌<◌, ◌≡◌, refl, sym, ap, ◌∙◌, arith, ltb, ok, if◌then◌else◌, Bool,
  false, List, [], ◌∷◌, ◌++◌, Option, none, some, Bool-cases, inl, inr, dec_lt, lt→ltb,
  le→ltb_false, ◌==◌,
}
use lseb.Range.{
  Range, span, find_in_range, accumulate_in_range, validate_subrange, find_if, accumulate,
}

-- The slot after `p`: after the last one comes the first.
abbrev pub next_slot : Range → ℕ → ℕ
next_slot range p = if p + 1 == range.end then range.begin else p + 1

-- The next `n` slots from `p` on.
abbrev pub orbit : Range → ℕ → ℕ → List ℕ
orbit range zero p = []
orbit range (suc n) p = p ∷ orbit range n (next_slot range p)

-- The slots of a sub-range, oldest first. A sub-range whose ends meet is all of the ring.
abbrev pub slots : Range → Range → List ℕ
slots sub range =
    orbit range
      (if ltb sub.begin sub.end then sub.end - sub.begin else span range + sub.end - sub.begin)
      sub.begin

abbrev pub find? : (ℕ → Bool) → List ℕ → Option ℕ
find? op [] = none
find? op (p ∷ ps) = if op p then some p else find? op ps

-- The sub-range's ends are in the range.
pub record IsSub (sub range : Range) : Type 0 where
  pub some_slots : range.begin < range.end
  pub begin_from : range.begin ≤ sub.begin
  pub begin_in : sub.begin < range.end
  pub end_from : range.begin ≤ sub.end
  pub end_in : sub.end ≤ range.end

foldl-append {ℓ} :
    {A : Type ℓ} (op : A → ℕ → A) (init : A) (xs ys : List ℕ)
    → foldl op init (xs ++ ys) ≡ foldl op (foldl op init xs) ys
foldl-append op init [] ys = refl
foldl-append op init (x ∷ xs) ys = foldl-append op (op init x) xs ys

module _ (range : Range) where
  pub next_slot-inner : (p : ℕ) → p + 1 < range.end → next_slot range p ≡ p + 1
  next_slot-inner p h = ground arith

  next_slot-last : (p : ℕ) → p + 1 ≡ range.end → next_slot range p ≡ range.begin
  next_slot-last p h = ground arith

  -- Up to the end an orbit is a run of consecutive slots,
  accumulate-orbit {ℓ} :
      {A : Type ℓ} (op : A → ℕ → A) (n p : ℕ) (init : A)
      → p + n ≤ range.end
      → accumulate n p init op ≡ foldl op init (orbit range n p)
  unfolding accumulate
  accumulate-orbit op zero p init h = refl
  accumulate-orbit op (suc zero) p init h = refl
  accumulate-orbit op (suc (suc n)) p init h =
      rw (next_slot-inner p (omega arith))
        (accumulate-orbit op (suc n) (p + 1) (op init p) (omega arith))

  find_if-orbit :
      (op : ℕ → Bool) (n p : ℕ)
      → p + n ≤ range.end
      → find_if n p op ≡ get_or (find? op (orbit range n p)) (p + n)
  unfolding find_if
  find_if-orbit op zero p h = omega arith
  find_if-orbit op (suc zero) p h = ground arith
  find_if-orbit op (suc (suc n)) p h = elim (Bool-cases (op p)) [
    | inl found ↦ rw found
    | inr other ↦ rw other (
        find_if-orbit op (suc n) (p + 1) (omega arith)
        ∙ ap₂ (λ t u. get_or (find? op (orbit range (suc n) t)) u)
            (sym (next_slot-inner p (omega arith))) (omega arith))
  ]

  -- and past the end it goes on from the begin.
  orbit-append :
      (n m k p : ℕ)
      → k ≡ n + m + 1
      → p + n + 1 ≡ range.end
      → orbit range k p ≡ orbit range (suc n) p ++ orbit range m range.begin
  orbit-append n m zero p e h = absurd (omega arith)
  orbit-append zero m (suc k) p e h =
      ap₂ (λ t u. p ∷ orbit range t u) (omega arith) (next_slot-last p (omega arith))
  orbit-append (suc n) m (suc k) p e h =
      let inner : next_slot range p ≡ p + 1 = next_slot-inner p (omega arith) in
      ap (λ t. p ∷ orbit range k t) inner
      ∙ ap (λ t. p ∷ t) (orbit-append n m k (p + 1) (omega arith) (omega arith))
      ∙ ap (λ t. p ∷ (orbit range (suc n) t ++ orbit range m range.begin)) (sym inner)

  slots-wrapped :
      {sub : Range}
      → IsSub sub range
      → sub.end ≤ sub.begin
      → slots sub range
        ≡ orbit range (range.end - sub.begin) sub.begin
          ++ orbit range (sub.end - range.begin) range.begin
  slots-wrapped {sub} v h =
      let all : suc (range.end - sub.begin - 1) ≡ range.end - sub.begin = omega arith in
      rw (le→ltb_false sub.begin sub.end h) (
        orbit-append (range.end - sub.begin - 1) (sub.end - range.begin) _ sub.begin (omega arith)
          (omega arith)
        ∙ ap (λ t. orbit range t sub.begin ++ orbit range (sub.end - range.begin) range.begin) all)

validate-ok : {sub range : Range} → IsSub sub range → validate_subrange sub range ≡ ok tt
unfolding validate_subrange
validate-ok v = ground arith

-- For a sub-range with its ends in the range, `accumulate_in_range` folds the operation over the
-- slots that an index going round the ring visits from the sub-range's begin up to its end; all
-- slots of the ring, if the two meet.
pub accumulate_in_range-eq-foldl {ℓ} :
    {A : Type ℓ} {sub range : Range} (init : A) (op : A → ℕ → A)
    → IsSub sub range
    → accumulate_in_range sub range init op ≡ ok (foldl op init (slots sub range))
unfolding accumulate_in_range
accumulate_in_range-eq-foldl {sub} {range} init op v = elim (dec_lt sub.begin sub.end) [
  | yes h ↦
      rw (validate-ok v, lt→ltb sub.begin sub.end h)
        (ap ok (accumulate-orbit range op (sub.end - sub.begin) sub.begin init (omega arith)))
  | no h ↦
      rw
        (
          validate-ok v,
          slots-wrapped range v (omega arith),
          le→ltb_false sub.begin sub.end (omega arith),
        )
        (ap ok (
          accumulate-orbit range op (sub.end - range.begin) range.begin _ (omega arith)
          ∙ ap (λ t. foldl op t (orbit range (sub.end - range.begin) range.begin))
              (accumulate-orbit range op (range.end - sub.begin) sub.begin init (omega arith))
          ∙ sym (foldl-append op init (orbit range (range.end - sub.begin) sub.begin) _)))
]

find?-append :
    (op : ℕ → Bool) (xs ys : List ℕ)
    → find? op (xs ++ ys) ≡ elim (find? op xs) [ none ↦ find? op ys | some q ↦ some q ]
find?-append op [] ys = refl
find?-append op (x ∷ xs) ys = ground (arith, find?-append op xs ys)

find?-below :
    (range : Range) (op : ℕ → Bool) (n p q : ℕ)
    → p + n ≤ range.end
    → find? op (orbit range n p) ≡ some q
    → q < range.end
find?-below range op zero p q h e = cc
find?-below range op (suc zero) p q h e = ground arith
find?-below range op (suc (suc n)) p q h e = elim (Bool-cases (op p)) [
  | inl found ↦ ground arith
  | inr other ↦
      find?-below range op (suc n) (p + 1) q (omega arith)
        (rw (next_slot-inner range p (omega arith), other) at e)
]

-- The first search of a sub-range that goes round the end gives the end exactly if it fails.
find_wrapped :
    (o : Option ℕ) (end : ℕ) (rest : Option ℕ) (d : ℕ)
    → ((q : ℕ) → o ≡ some q → q < end)
    → (if get_or o end == end then get_or rest d else get_or o end)
      ≡ get_or (elim o [ none ↦ rest | some q ↦ some q ]) d
find_wrapped none end rest d h = ground arith
find_wrapped (some q) end rest d h = ground (arith, h q refl)

-- For a sub-range with its ends in the range, `find_in_range` gives the first slot of it, in the
-- order of a walk round the ring, that satisfies the test, and the sub-range's end if there is none.
pub find_in_range-eq-find? :
    {sub range : Range} (op : ℕ → Bool)
    → IsSub sub range
    → find_in_range sub range op ≡ ok (get_or (find? op (slots sub range)) sub.end)
unfolding find_in_range
find_in_range-eq-find? {sub} {range} op v = elim (dec_lt sub.begin sub.end) [
  | yes h ↦ rw (
    validate-ok v,
    lt→ltb sub.begin sub.end h,
    find_if-orbit range op (sub.end - sub.begin) sub.begin (omega arith),
    meets h,
  )
  | no h ↦
      rw
        (
          validate-ok v,
          slots-wrapped range v (omega arith),
          le→ltb_false sub.begin sub.end (omega arith),
          find_if-orbit range op (range.end - sub.begin) sub.begin (omega arith),
          find_if-orbit range op (sub.end - range.begin) range.begin (omega arith),
          find?-append op (orbit range (range.end - sub.begin) sub.begin),
          to_end,
          round_end,
        )
        (ap ok (
          find_wrapped (find? op (orbit range (range.end - sub.begin) sub.begin)) range.end
            (find? op (orbit range (sub.end - range.begin) range.begin)) sub.end
            (λ q. find?-below range op (range.end - sub.begin) sub.begin q (omega arith))))
]
  where
    meets : sub.begin < sub.end → sub.begin + (sub.end - sub.begin) ≡ sub.end
    meets h = omega arith

    to_end : sub.begin + (range.end - sub.begin) ≡ range.end
    to_end = omega arith

    round_end : range.begin + (sub.end - range.begin) ≡ sub.end
    round_end = omega arith

pub find?-none :
    (range : Range) (op : ℕ → Bool) (n p : ℕ)
    → p + n ≤ range.end
    → ((q : ℕ) → p ≤ q → q < p + n → op q ≡ false)
    → find? op (orbit range n p) ≡ none
find?-none range op zero p h miss = refl
find?-none range op (suc zero) p h miss = rw (miss p (omega arith) (omega arith))
find?-none range op (suc (suc n)) p h miss =
    rw (miss p (omega arith) (omega arith), next_slot-inner range p (omega arith))
      (find?-none range op (suc n) (p + 1) (omega arith)
        (λ q a b. miss q (omega arith) (omega arith)))
