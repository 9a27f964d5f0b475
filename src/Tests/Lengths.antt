-- ===== src/Tests/Lengths.antt =====
-- Lengths around 40, for events of at most 96 bytes.
use lseb.Prelude.{
  ℕ, ◌+◌, ◌≤◌, ◌≡◌, refl, arith, ok, err, undefined, pos, negsuc, ltb, if◌then◌else◌,
}
use lseb.LengthGenerator.{LengthGenerator, create, generate, to_size}
use lseb.LengthGenerator.Lengths.{Clamps, Cut, generate-Cut}

abbrev clamp : ℕ → ℕ → ℕ → ℕ
clamp v lo hi = if ltb v lo then lo else if ltb hi v then hi else v

clamp-Clamps : Clamps clamp
clamp-Clamps = record {
  below = λ v lo hi h k. ground arith;
  above = λ v lo hi h k. ground arith;
  between = λ v lo hi h k. ground arith;
}

-- The least length is 0, as in the program, and 100 is more than a fragment holds.
generate-Cut_example :
    (g : LengthGenerator) × (create 40 5 72 0 ≡ ok g)
    × (n : ℕ) × (generate clamp g (pos 100) ≡ ok n)
    × Cut 0 72 100 n
    × (0 ≤ n)
    × (24 + n ≤ 96)
    × (generate clamp g (negsuc 100) ≡ err undefined)
generate-Cut_example =
    generate-Cut clamp 96 40 5 0 100 clamp-Clamps (omega arith) (omega arith) (omega arith)
      (omega arith) (omega arith)

-- A number below 0 that is drawn has no meaning as a length.
below_zero : generate clamp (record { max = 72; min = 8 }) (negsuc 2) ≡ err undefined
unfolding generate to_size
below_zero = refl
