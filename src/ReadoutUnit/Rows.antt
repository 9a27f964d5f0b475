-- ===== src/ReadoutUnit/Rows.antt =====
-- The map of the connections: rows of nodes that grow at their end.
use mathlib.Core.Option.{some-injective}
use lseb.Prelude.{
  Option-cases, inl, inr, ℕ, zero, suc, ◌+◌, ◌<◌, ◌≡◌, refl, ap, arith, [], ◌∷◌, ◌++◌, some, none,
  ne→==_false, eq→==, le→ltb_false, lt→ltb,
}
use lseb.Socket.{Socket}
use lseb.ReadoutUnit.Connecting.{Connections, emplace}

-- Connections to `n` nodes from `first` on.
abbrev pub all_from : Socket → ℕ → ℕ → Connections
all_from conn first zero = []
all_from conn first (suc n) = (first, conn) ∷ all_from conn (suc first) n

pub all_from-append :
    (conn : Socket) (first a start b n : ℕ)
    → first + a ≡ start
    → a + b ≡ n
    → all_from conn first a ++ all_from conn start b ≡ all_from conn first n
all_from-append conn first zero start b n d e = λ i. all_from conn (same i) (same' i)
  where
    same : start ≡ first
    same = omega arith

    same' : b ≡ n
    same' = omega arith
all_from-append conn first (suc a) start b zero d e = absurd (omega arith)
all_from-append conn first (suc a) start b (suc n) d e =
    ap (λ l. (first, conn) ∷ l)
      (all_from-append conn (suc first) a start b n (omega arith) (omega arith))

-- A node behind the last one.
pub emplace-last :
    (conn : Socket) (first n id : ℕ)
    → first + n ≡ id
    → emplace id conn (all_from conn first n) ≡ some (all_from conn first (suc n))
unfolding emplace
emplace-last conn first zero id e =
    ap (λ k. some ((k, conn) ∷ [])) {x = id} {y = first} (omega arith)
emplace-last conn first (suc n) id e = rw (
  emplace,
  ne→==_false first id (omega arith),
  le→ltb_false id first (omega arith),
  emplace-last conn (suc first) n id (omega arith),
)

-- A node in front of a later row, and behind the last one before it.
pub emplace-between :
    (conn : Socket) (first low high n id : ℕ)
    → first + low ≡ id
    → id < high
    → emplace id conn (all_from conn first low ++ all_from conn high n)
      ≡ some (all_from conn first (suc low) ++ all_from conn high n)
unfolding emplace
emplace-between conn first zero high zero id e h =
    ap (λ k. some ((k, conn) ∷ [])) {x = id} {y = first} (omega arith)
emplace-between conn first zero high (suc n) id e h =
    rw (emplace, ne→==_false high id (omega arith), lt→ltb id high h)
      (ap (λ k. some ((k, conn) ∷ all_from conn high (suc n))) {x = id} {y = first} (omega arith))
emplace-between conn first (suc low) high n id e h = rw (
  emplace,
  ne→==_false first id (omega arith),
  le→ltb_false id first (omega arith),
  emplace-between conn (suc first) low high n id (omega arith) h,
)

-- A node that is in the map is not put there again.
pub emplace-twice :
    (id : ℕ) (c d : Socket) (conns conns' : Connections)
    → emplace id c conns ≡ some conns'
    → emplace id d conns' ≡ none
unfolding emplace
emplace-twice id c d [] conns' e = rw (← some-injective _ _ e, eq→== id id refl)
emplace-twice id c d ((j, b) ∷ conns) conns' e = elim (Option-cases (emplace id c conns)) [
  | inl n ↦ ground (arith, n)
  | inr (r, f) ↦ ground (arith, f, emplace-twice id c d conns r f)
]
