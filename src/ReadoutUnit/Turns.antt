-- ===== src/ReadoutUnit/Turns.antt =====
-- The order in which the nodes are served: in a cycle each has one turn.
use mathlib.Core.List.{head-eq_of_cons-eq, tail-eq_of_cons-eq}
use lseb.Prelude.{
  ℕ, zero, suc, ◌+◌, ◌-◌, ◌≤◌, ◌<◌, ◌≡◌, refl, ap, ◌∙◌, arith, List, [], ◌∷◌, ◌++◌, length,
  length-append, take, drop, get_elem?, some, ok, ◌⊎◌, inl, inr, ◌==◌, le→leb, if◌then◌else◌,
  dec_lt,
}
use lseb.ReadoutUnit.{iota, create_sequence}
use lseb.ReadoutUnit.Sequence.{length-iota, drop-iota, take-iota}
use lseb.ReadoutUnit.Polls.{Absent, Once}

-- No node has two places.
abbrev pub Distinct : List ℕ → Type 0
Distinct [] = Unit {0}
Distinct (j ∷ ids) = Absent j ids × Distinct ids

abbrev pub Below : ℕ → List ℕ → Type 0
Below n [] = Unit {0}
Below n (j ∷ ids) = (j < n) × Below n ids

-- Each of the `n` nodes has one place.
pub record IsCycle (n : ℕ) (ids : List ℕ) : Type 0 where
  pub size : length ids ≡ n
  pub bounded : Below n ids
  pub distinct : Distinct ids
  pub turn : (id : ℕ) → id < n → Once id ids

Absent-iota : (id first n : ℕ) → (id < first) ⊎ (first + n ≤ id) → Absent id (iota first n)
unfolding iota
Absent-iota id first zero h = tt
Absent-iota id first (suc n) (inl h) =
    ((λ e. omega (arith, e)), Absent-iota id (suc first) n (inl (omega arith)))
Absent-iota id first (suc n) (inr h) =
    ((λ e. omega (arith, e)), Absent-iota id (suc first) n (inr (omega arith)))

Absent-append : (id : ℕ) (xs ys : List ℕ) → Absent id xs → Absent id ys → Absent id (xs ++ ys)
Absent-append id [] ys a b = b
Absent-append id (j ∷ xs) ys a b = (a.0, Absent-append id xs ys a.1 b)

Once-iota : (id first n : ℕ) → first ≤ id → id < first + n → Once id (iota first n)
unfolding iota
Once-iota id first zero h k = absurd (omega arith)
Once-iota id first (suc n) h k = elim (dec_lt first id) [
  | yes later ↦ inr ((λ e. omega (arith, e)), Once-iota id (suc first) n later (omega arith))
  | no here ↦ inl (omega arith, Absent-iota id (suc first) n (inl (omega arith)))
]

Once-append_left : (id : ℕ) (xs ys : List ℕ) → Once id xs → Absent id ys → Once id (xs ++ ys)
Once-append_left id [] ys o a = absurd o
Once-append_left id (j ∷ xs) ys (inl o) a = inl (o.0, Absent-append id xs ys o.1 a)
Once-append_left id (j ∷ xs) ys (inr o) a = inr (o.0, Once-append_left id xs ys o.1 a)

Once-append_right : (id : ℕ) (xs ys : List ℕ) → Absent id xs → Once id ys → Once id (xs ++ ys)
Once-append_right id [] ys a o = o
Once-append_right id (j ∷ xs) ys a o = inr (a.0, Once-append_right id xs ys a.1 o)

Distinct-iota : (first n : ℕ) → Distinct (iota first n)
unfolding iota
Distinct-iota first zero = tt
Distinct-iota first (suc n) =
    (Absent-iota first (suc first) n (inl (omega arith)), Distinct-iota (suc first) n)

Below-iota : (m first n : ℕ) → first + n ≤ m → Below m (iota first n)
unfolding iota
Below-iota m first zero h = tt
Below-iota m first (suc n) h = (omega arith, Below-iota m (suc first) n (omega arith))

Below-append : (n : ℕ) (xs ys : List ℕ) → Below n xs → Below n ys → Below n (xs ++ ys)
Below-append n [] ys a b = b
Below-append n (j ∷ xs) ys a b = (a.0, Below-append n xs ys a.1 b)

-- A list of numbers from `f` on, before one of numbers below `f`.
Distinct-append : (first n k : ℕ) → k ≤ first → Distinct (iota first n ++ iota 0 k)
unfolding iota
Distinct-append first zero k h = Distinct-iota 0 k
Distinct-append first (suc n) k h = (
  Absent-append first (iota (suc first) n) (iota 0 k)
      (Absent-iota first (suc first) n (inl (omega arith)))
      (Absent-iota first 0 k (inr (omega arith))),
  Distinct-append (suc first) n k (omega arith),
)

rotation-IsCycle : (f n : ℕ) → f ≤ n → IsCycle n (iota f (n - f) ++ iota 0 f)
rotation-IsCycle f n h = record {
  size =
      omega
        (arith, length-append (iota f (n - f)) (iota 0 f), length-iota f (n - f), length-iota 0 f);
  bounded =
      Below-append n (iota f (n - f)) (iota 0 f) (Below-iota n f (n - f) (omega arith))
        (Below-iota n 0 f (omega arith));
  distinct = Distinct-append f (n - f) f (omega arith);
  turn = λ id k. elim (dec_lt id f) [
    | yes low ↦
        Once-append_right id (iota f (n - f)) (iota 0 f) (Absent-iota id f (n - f) (inl low))
          (Once-iota id 0 f (omega arith) (omega arith))
    | no high ↦
        Once-append_left id (iota f (n - f)) (iota 0 f)
          (Once-iota id f (n - f) (omega arith) (omega arith))
          (Absent-iota id 0 f (inr (omega arith)))
  ];
}

rotation : (f n : ℕ) → f ≤ n → drop f (iota 0 n) ++ take f (iota 0 n) ≡ iota f (n - f) ++ iota 0 f
rotation f n h =
    (λ i. drop-iota 0 n f i ++ take-iota 0 n f h i)
    ∙ ap (λ g. iota g (n - f) ++ iota 0 f) {x = 0 + f} {y = f} (omega arith)

-- `create_sequence` gives each node one turn.
pub create_sequence-IsCycle :
    (id n : ℕ) → id < n → (ids : List ℕ) × (create_sequence id n ≡ ok ids) × IsCycle n ids
unfolding create_sequence
create_sequence-IsCycle id n h =
    let f = if id + 1 == n then 0 else id + 1 in
    let fits : f ≤ n = ground arith in
    (
      iota f (n - f) ++ iota 0 f,
      rw (le→leb f n fits) (ap ok (rotation f n fits)),
      rotation-IsCycle f n fits,
    )

pub Below-mono : (m n : ℕ) (ids : List ℕ) → m ≤ n → Below m ids → Below n ids
Below-mono m n [] h b = tt
Below-mono m n (j ∷ ids) h b = (omega arith, Below-mono m n ids h b.1)

-- A node that is not in the turns that are over is in those to come.
pub Once-drop :
    (id m s : ℕ) (ids : List ℕ) → Once id ids → Below m (take s ids) → m ≤ id → Once id (drop s ids)
Once-drop id m zero ids o b h = o
Once-drop id m (suc s) [] o b h = absurd o
Once-drop id m (suc s) (j ∷ ids) (inl (same, a)) b h = absurd (omega (arith, same, b.0))
Once-drop id m (suc s) (j ∷ ids) (inr (other, o)) b h = Once-drop id m s ids o b.1 h

pub Once-lt : (id m : ℕ) (ids : List ℕ) → Once id ids → Below m ids → id < m
Once-lt id m [] o b = absurd o
Once-lt id m (j ∷ ids) (inl (same, a)) b = omega (arith, same, b.0)
Once-lt id m (j ∷ ids) (inr (other, o)) b = Once-lt id m ids o b.1

-- The turn at place `s`.
pub at_turn :
    (s : ℕ) (ids : List ℕ)
    → s < length ids
    → (id : ℕ) × (later : List ℕ) × (get_elem? ids s ≡ some id) × (drop s ids ≡ id ∷ later)
at_turn s [] h = absurd (omega arith)
at_turn zero (j ∷ ids) h = (j, ids, refl, refl)
at_turn (suc s) (j ∷ ids) h = at_turn s ids (omega arith)

pub Below-drop : (m s : ℕ) (ids : List ℕ) → Below m ids → Below m (drop s ids)
Below-drop m zero ids b = b
Below-drop m (suc s) [] b = tt
Below-drop m (suc s) (j ∷ ids) b = Below-drop m s ids b.1

pub Below-take_next :
    (m s id : ℕ) (ids later : List ℕ)
    → drop s ids ≡ id ∷ later
    → id < m
    → Below m (take s ids)
    → Below m (take (suc s) ids)
Below-take_next m s id [] later e h b = tt
Below-take_next m zero id (j ∷ ids) later e h b = (omega (arith, h, head-eq_of_cons-eq e), tt)
Below-take_next m (suc s) id (j ∷ ids) later e h b = (b.0, Below-take_next m s id ids later e h b.1)

-- After the last turn all turns are over.
pub Below-last :
    (m s id : ℕ) (ids : List ℕ) → drop s ids ≡ id ∷ [] → id < m → Below m (take s ids) → Below m ids
Below-last m s id [] e h b = tt
Below-last m zero id (j ∷ ids) e h b =
    (omega (arith, h, head-eq_of_cons-eq e), rw (tail-eq_of_cons-eq e) tt)
Below-last m (suc s) id (j ∷ ids) e h b = (b.0, Below-last m s id ids e h b.1)
