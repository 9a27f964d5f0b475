-- ===== src/PendingMap.antt =====
-- `std::map<void*, size_t>` as the sockets use it: the lengths of the posted pieces of memory by their
-- address, in the order of the addresses.
pub mod Laws
use lseb.Prelude.{ℕ, ◌==◌, ltb, if◌then◌else◌, List, [], ◌∷◌, Option, none, some}
use mathlib.Core.Option

abbrev pub PendingMap : Type 0
PendingMap = List (ℕ × ℕ)

unfoldable pub find : ℕ → PendingMap → Option ℕ
find k [] = none
find k ((j, v) ∷ m) = if j == k then some v else find k m

-- `insert`; `none` if the key is there already, and nothing is inserted.
unfoldable pub insert : ℕ → ℕ → PendingMap → Option PendingMap
insert k v [] = some ((k, v) ∷ [])
insert k v ((j, w) ∷ m) =
    if j == k
    then none
    else if ltb k j
    then some ((k, v) ∷ (j, w) ∷ m)
    else Option.map (λ r. (j, w) ∷ r) (insert k v m)

-- `erase` of the entry with the key.
unfoldable pub erase : ℕ → PendingMap → PendingMap
erase k [] = []
erase k ((j, v) ∷ m) = if j == k then m else (j, v) ∷ erase k m
