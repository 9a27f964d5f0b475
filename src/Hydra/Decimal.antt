-- ===== src/Hydra/Decimal.antt =====
-- `%d` of `sprintf` for numbers from 0 up, as codes of characters: it can be read back, and it is short.
use lseb.Prelude.{
  ℕ, zero, suc, ◌+◌, ◌-◌, ◌*◌, ◌/◌, ◌%◌, ◌≤◌, ◌<◌, ◌≡◌, refl, arith, ltb, lt→ltb, le→ltb_false,
  List, [], ◌∷◌, ◌++◌, length, length-append, dec_lt, true, false,
}

abbrev pub Text : Type 0
Text = List ℕ

-- The last digit of a number needs one round, and so does each digit before it.
unfoldable pub digits : ℕ → ℕ → Text
digits zero n = []
digits (suc fuel) n = elim (ltb n 10) [
  | true ↦ (48 + n) ∷ []
  | false ↦ digits fuel (n / 10) ++ (48 + n % 10) ∷ []
]

unfoldable pub decimal : ℕ → Text
decimal n = digits (suc n) n

abbrev value : Text → ℕ → ℕ
value [] so_far = so_far
value (c ∷ text) so_far = value text (so_far * 10 + (c - 48))

value-append :
    (text : Text) (c so_far : ℕ) → value (text ++ c ∷ []) so_far ≡ value text so_far * 10 + (c - 48)
value-append [] c so_far = refl
value-append (d ∷ text) c so_far = value-append text c (so_far * 10 + (d - 48))

value-digits : (fuel n : ℕ) → n < fuel → value (digits fuel n) 0 ≡ n
unfolding digits
value-digits zero n h = absurd (omega arith)
value-digits (suc fuel) n h = elim (dec_lt n 10) [
  | yes small ↦ rw (digits, lt→ltb n 10 small) (omega arith)
  | no large ↦
      rw
        (
          digits,
          le→ltb_false n 10 (omega arith),
          value-append (digits fuel (n / 10)) (48 + n % 10) 0,
          value-digits fuel (n / 10) (omega arith),
        )
        (omega arith)
]

-- The number that a text stands for.
abbrev pub number : Text → ℕ
number text = value text 0

pub number-decimal : (n : ℕ) → number (decimal n) ≡ n
unfolding decimal
number-decimal n = value-digits (suc n) n (omega arith)

abbrev pub power : ℕ → ℕ
power zero = 1
power (suc k) = 10 * power k

length-digits : (k fuel n : ℕ) → n < power (suc k) → length (digits fuel n) ≤ suc k
unfolding digits
length-digits k zero n h = omega arith
length-digits zero (suc fuel) n h = rw (digits, lt→ltb n 10 (omega arith)) (omega arith)
length-digits (suc k) (suc fuel) n h = elim (dec_lt n 10) [
  | yes small ↦ rw (digits, lt→ltb n 10 small) (omega arith)
  | no large ↦
      rw
        (
          digits,
          le→ltb_false n 10 (omega arith),
          length-append (digits fuel (n / 10)) ((48 + n % 10) ∷ []),
        )
        (omega (arith, length-digits k fuel (n / 10) (omega arith)))
]

-- A number below 10 ^ (k + 1) has at most k + 1 digits.
pub length-decimal : (k n : ℕ) → n < power (suc k) → length (decimal n) ≤ suc k
unfolding decimal
length-decimal k n h = length-digits k (suc n) n h
