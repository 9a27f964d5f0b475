-- ===== src/Tests/ReadoutUnits.antt =====
-- The readout unit of node 1 of 3.
use mathlib.Core.List.{Perm}
use lseb.Prelude.{ℕ, ◌≡◌, refl, arith, List, [], ◌∷◌, get_elem?, some, ok}
use lseb.ReadoutUnit.{iota, create_sequence}
use lseb.ReadoutUnit.Sequence.{create_sequence-rotates}

sequence_of_node_1 : create_sequence 1 3 ≡ ok (2 ∷ 0 ∷ 1 ∷ [])
unfolding create_sequence iota
sequence_of_node_1 = refl

create_sequence-rotates_example :
    (ids : List ℕ) × (create_sequence 1 3 ≡ ok ids)
    × Perm ids (iota 0 3)
    × (get_elem? ids 2 ≡ some 1)
create_sequence-rotates_example = create_sequence-rotates 1 3 2 (omega arith) (omega arith)
