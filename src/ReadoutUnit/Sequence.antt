-- ===== src/ReadoutUnit/Sequence.antt =====
-- `create_sequence`: which builder unit is served when.
use mathlib.Core.List.{Perm, perm_append_comm}
use mathlib.Core.Path.{subst}
use lseb.Prelude.{
  ℕ, zero, suc, ◌+◌, ◌-◌, ◌%◌, ◌≤◌, ◌<◌, ◌≡◌, refl, ap, ◌∙◌, arith, List, [], ◌∷◌, ◌++◌, length,
  take, drop, get_elem?, take-append-drop, some, ok, ◌==◌, le→leb, if◌then◌else◌, dec_lt, mod_once,
}
use lseb.ReadoutUnit.{iota, create_sequence}

pub length-iota : (first n : ℕ) → length (iota first n) ≡ n
unfolding iota
length-iota first zero = refl
length-iota first (suc n) = ap suc (length-iota (suc first) n)

get_elem?-iota : (first n i : ℕ) → i < n → get_elem? (iota first n) i ≡ some (first + i)
unfolding iota
get_elem?-iota first zero i h = absurd (omega arith)
get_elem?-iota first (suc n) zero h = ap some (omega arith)
get_elem?-iota first (suc n) (suc i) h =
    get_elem?-iota (suc first) n i (omega arith) ∙ ap some (omega arith)

pub drop-iota : (first n k : ℕ) → drop k (iota first n) ≡ iota (first + k) (n - k)
unfolding iota
drop-iota first n zero = λ i. iota (same i) (same' i)
  where
    same : first ≡ first + 0
    same = omega arith

    same' : n ≡ n - 0
    same' = omega arith
drop-iota first zero (suc k) = ap (iota (first + suc k)) {x = 0} {y = 0 - suc k} (omega arith)
drop-iota first (suc n) (suc k) = drop-iota (suc first) n k ∙ (λ i. iota (same i) (same' i))
  where
    same : suc first + k ≡ first + suc k
    same = omega arith

    same' : n - k ≡ suc n - suc k
    same' = omega arith

pub take-iota : (first n k : ℕ) → k ≤ n → take k (iota first n) ≡ iota first k
unfolding iota
take-iota first n zero h = refl
take-iota first zero (suc k) h = absurd (omega arith)
take-iota first (suc n) (suc k) h = ap (λ l. first ∷ l) (take-iota (suc first) n k (omega arith))

get_elem?-append_left :
    (xs ys : List ℕ) (i : ℕ) → i < length xs → get_elem? (xs ++ ys) i ≡ get_elem? xs i
get_elem?-append_left [] ys i h = absurd (omega arith)
get_elem?-append_left (x ∷ xs) ys zero h = refl
get_elem?-append_left (x ∷ xs) ys (suc i) h = get_elem?-append_left xs ys i (omega arith)

get_elem?-append_right :
    (xs ys : List ℕ) (i : ℕ) → get_elem? (xs ++ ys) (length xs + i) ≡ get_elem? ys i
get_elem?-append_right [] ys i = ap (get_elem? ys) (omega arith)
get_elem?-append_right (x ∷ xs) ys i =
    ap (get_elem? (x ∷ (xs ++ ys))) {x = suc (length xs) + i} {y = suc (length xs + i)}
      (omega arith)
    ∙ get_elem?-append_right xs ys i

-- A rotation by `f` starts at `f` and goes on from 0 behind the last number.
rotated :
    (f n i : ℕ)
    → f < n
    → i < n
    → get_elem? (drop f (iota 0 n) ++ take f (iota 0 n)) i ≡ some ((f + i) % n)
rotated f n i h k =
    (λ t. get_elem? (drop-iota 0 n f t ++ take-iota 0 n f (omega arith) t) i)
    ∙ elim (dec_lt i (n - f)) [
      | yes near ↦
          get_elem?-append_left (iota (0 + f) (n - f)) (iota 0 f) i
            (omega (arith, length-iota (0 + f) (n - f)))
          ∙ get_elem?-iota (0 + f) (n - f) i near
          ∙ ap some (ground (arith, mod_once (f + i) n))
      | no far ↦
          ap (get_elem? (iota (0 + f) (n - f) ++ iota 0 f)) {x = i}
            {y = length (iota (0 + f) (n - f)) + (i - (n - f))}
            (omega (arith, length-iota (0 + f) (n - f)))
          ∙ get_elem?-append_right (iota (0 + f) (n - f)) (iota 0 f) (i - (n - f))
          ∙ get_elem?-iota 0 f (i - (n - f)) (omega arith)
          ∙ ap some (ground (arith, mod_once (f + i) n))
    ]

-- For a node `id` of `total`, `create_sequence` ends, each node is in the sequence once, and place
-- `i` holds the node that is `i + 1` behind `id`, round the ring of nodes.
pub create_sequence-rotates :
    (id total i : ℕ)
    → id < total
    → i < total
    → (ids : List ℕ) × (create_sequence id total ≡ ok ids)
      × Perm ids (iota 0 total)
      × (get_elem? ids i ≡ some ((id + 1 + i) % total))
unfolding create_sequence
create_sequence-rotates id total i h k =
    let f = if id + 1 == total then 0 else id + 1 in
    let fits : f < total = ground arith in
    let same : (f + i) % total ≡ (id + 1 + i) % total =
      ground (arith, mod_once (id + 1 + i) total, mod_once i total) in
    (
      drop f (iota 0 total) ++ take f (iota 0 total),
      rw (le→leb f total (omega (arith, fits))),
      subst (λ l. Perm (drop f (iota 0 total) ++ take f (iota 0 total)) l)
          (take-append-drop f (iota 0 total))
          (perm_append_comm (drop f (iota 0 total)) (take f (iota 0 total))),
      rotated f total i fits k ∙ ap some same,
    )
