-- ===== src/PendingMap/Laws.antt =====
-- What insertion, search and erasure do to the keys of a map.
use mathlib.Core.Option.{some-injective}
use mathlib.Core.List.{Perm, Mem, mem-cons, not-mem-nil, mem-cons_self}
use mathlib.Core.List.Perm
use mathlib.Core.HLevel.{⊥_prop}
use mathlib.Core.Logic.Or
use lseb.Prelude.{
  ℕ, suc, ◌<◌, ◌≤◌, ◌≡◌, ◌≢◌, refl, sym, ap, arith, List, [], ◌∷◌, length, map, none, some, ◌==◌,
  eq→==, ne→==_false, inl, inr, if◌then◌else◌, ℕ_discrete, dec_lt, lt→ltb, le→ltb_false,
  Option-cases,
}
use lseb.PendingMap.{PendingMap, find, insert, erase}

abbrev pub keys : PendingMap → List ℕ
keys = map (λ e. e.0)

-- A key that is found is there once, and `erase` takes just that entry.
pub keys-erase :
    (k v : ℕ) (m : PendingMap) → find k m ≡ some v → Perm (keys m) (k ∷ keys (erase k m))
unfolding find erase
keys-erase k v [] e = cc
keys-erase k v ((j, w) ∷ m) e = elim (ℕ_discrete j k) [
  | yes hit ↦ rw (eq→== j k hit) (rw hit (Perm.refl (k ∷ keys m)))
  | no miss ↦ rw (ne→==_false j k miss) (
      Perm.trans (Perm.cons j (keys-erase k v m (rw (ne→==_false j k miss) at e)))
        (Perm.swap k j _))
]

pub length-erase :
    (k v : ℕ) (m : PendingMap) → find k m ≡ some v → length m ≡ suc (length (erase k m))
unfolding find erase
length-erase k v [] e = cc
length-erase k v ((j, w) ∷ m) e = ground (arith, length-erase k v m)

-- The keys rise along the map.
abbrev pub Above : ℕ → PendingMap → Type 0
Above k [] = Unit {0}
Above k ((j, v) ∷ m) = (k < j) × Above k m

abbrev pub IsSorted : PendingMap → Type 0
IsSorted [] = Unit {0}
IsSorted ((j, v) ∷ m) = Above j m × IsSorted m

Above-mono : (i j : ℕ) (m : PendingMap) → i ≤ j → Above j m → Above i m
Above-mono i j [] h a = tt
Above-mono i j ((k, v) ∷ m) h a = (omega arith, Above-mono i j m h a.1)

find-Above : (k j : ℕ) (m : PendingMap) → k ≤ j → Above j m → find k m ≡ none
unfolding find
find-Above k j [] h a = refl
find-Above k j ((i, v) ∷ m) h a = rw (ne→==_false i k (omega arith)) (find-Above k j m h a.1)

-- A key that is there is not inserted again.
pub insert-found :
    (k v w : ℕ) (m : PendingMap) → IsSorted m → find k m ≡ some w → insert k v m ≡ none
unfolding find insert
insert-found k v w [] s e = cc
insert-found k v w ((j, u) ∷ m) s e = ground (arith, find-Above k j m, insert-found k v w m s.1)

Above-insert :
    (i k v : ℕ) (m m' : PendingMap) → i < k → Above i m → insert k v m ≡ some m' → Above i m'
unfolding insert
Above-insert i k v [] m' h a e = rw (← some-injective _ _ e) (h, tt)
Above-insert i k v ((j, w) ∷ m) m' h a e = elim (Option-cases (insert k v m)) [
  | inl n ↦ ground (arith, n)
  | inr (r, f) ↦ ground (arith, f, Above-insert i k v m r h a.1 f)
]

pub insert-IsSorted :
    (k v : ℕ) (m m' : PendingMap) → IsSorted m → insert k v m ≡ some m' → IsSorted m'
unfolding insert
insert-IsSorted k v [] m' s e = rw (← some-injective _ _ e) (tt, tt)
insert-IsSorted k v ((j, w) ∷ m) m' s e = elim (Option-cases (insert k v m)) [
  | inl n ↦ ground (arith, n, Above-mono k j m, s)
  | inr (r, f) ↦
      ground (arith, f, insert-IsSorted k v m r s.1 f, Above-insert j k v m r, Above-mono k j m, s)
]

Above-erase : (i k : ℕ) (m : PendingMap) → Above i m → Above i (erase k m)
unfolding erase
Above-erase i k [] a = tt
Above-erase i k ((j, w) ∷ m) a = ground (arith, Above-erase i k m a.1, a)

pub erase-IsSorted : (k : ℕ) (m : PendingMap) → IsSorted m → IsSorted (erase k m)
unfolding erase
erase-IsSorted k [] s = tt
erase-IsSorted k ((j, w) ∷ m) s = ground (arith, Above-erase j k m s.0, erase-IsSorted k m s.1, s)

-- What a map with the new entry `k` is to the map `m` without it.
pub record Inserted (k v : ℕ) (m m' : PendingMap) : Type 0 where
  pub inserts : insert k v m ≡ some m'
  pub grows : length m' ≡ suc (length m)
  pub adds : Perm (keys m') (k ∷ keys m)
  pub finds : find k m' ≡ some v

-- A new key is inserted.
pub insert_new :
    (k v : ℕ) (m : PendingMap) → find k m ≡ none → (m' : PendingMap) × Inserted k v m m'
unfolding find insert
insert_new k v [] e = (
  (k, v) ∷ [],
  record { inserts = refl; grows = refl; adds = Perm.refl _; finds = rw (eq→== k k refl) },
)
insert_new k v ((j, w) ∷ m) e =
    let miss : j ≢ k = λ same. cc (rw (eq→== j k same) at e) in
    elim (dec_lt k j) [
      | yes before ↦ (
        (k, v) ∷ (j, w) ∷ m,
        record {
          inserts = rw (ne→==_false j k miss, lt→ltb k j before);
          grows = refl;
          adds = Perm.refl _;
          finds = rw (eq→== k k refl);
        },
      )
      | no behind ↦
          let (m', i) = insert_new k v m (rw (ne→==_false j k miss) at e) in
          (
            (j, w) ∷ m',
            record {
              inserts = rw (ne→==_false j k miss, le→ltb_false k j (omega arith), i.inserts);
              grows = ap suc i.grows;
              adds = Perm.trans (Perm.cons j i.adds) (Perm.swap k j _);
              finds = rw (ne→==_false j k miss) i.finds;
            },
          )
    ]

-- After `erase` the key is gone, and the other entries are as they were.
pub find-erase :
    (k j : ℕ) (m : PendingMap)
    → IsSorted m
    → find k (erase j m) ≡ (if j == k then none else find k m)
unfolding find erase
find-erase k j [] s = ground arith
find-erase k j ((i, v) ∷ m) s = ground (arith, find-erase k j m s.1, find-Above k i m, s)

pub find-Mem : (k : ℕ) (m : PendingMap) → Mem k (keys m) → find k m ≢ none
unfolding find
find-Mem k [] h e = not-mem-nil h
find-Mem k ((j, v) ∷ m) h e = elim (ℕ_discrete j k) [
  | yes hit ↦ cc (rw (eq→== j k hit) at e)
  | no miss ↦
      Or.elim ⊥_prop (mem-cons.0 h) (λ same. miss (sym same))
        (λ later. find-Mem k m later (rw (ne→==_false j k miss) at e))
]

pub find-not-Mem : (k : ℕ) (m : PendingMap) → ¬ Mem k (keys m) → find k m ≡ none
find-not-Mem k m h = elim (Option-cases (find k m)) [
  | inl e ↦ e
  | inr (v, e) ↦ absurd (h ((Perm.mem_iff (Perm.symm (keys-erase k v m e))).0 mem-cons_self))
]
