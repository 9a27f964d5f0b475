-- ===== src/Setup.antt =====
-- main.cpp: the checks of the configuration, and the sizes of the memories that follow from it.
pub mod Sizes
use lseb.Prelude.{
  ℕ, zero, suc, ◌+◌, ◌*◌, ◌%◌, ◌-◌, Bool, true, false, not, Result, ok, err, assert, ◌>>=◌, ◌>>◌,
  ltb, ◌==◌, if◌then◌else◌, ℤ, pos, negsuc, to_int, sub_size, Option, none, some,
}
use lseb.DataFormat.{event_header_size, event_meta_data_size}

-- What the program reads from the configuration.
pub record Configuration : Type 0 where
  pub max_fragment_size : ℤ
  pub bulked_events : ℤ
  pub credits : ℤ
  pub frequency : ℤ
  pub mean : ℤ
  pub std_dev : ℤ

-- The sizes of the memories in bytes, and what the generator is built with.
pub record Setup : Type 0 where
  pub bulk_size : ℕ
  pub credits : ℕ
  pub max_fragment_size : ℕ
  pub meta_size : ℕ
  pub data_size : ℕ
  pub generator_frequency : ℕ
  pub max_length : ℕ

-- The value if it is above 0, and 0 otherwise.
abbrev pub above_zero : ℤ → ℕ
above_zero (pos n) = n
above_zero (negsuc n) = 0

abbrev pub is_negative : ℤ → Bool
is_negative (pos n) = false
is_negative (negsuc n) = true

-- The memories and the generator's parameters, once the sizes are accepted.
unfoldable pub allocate : Configuration → ℕ → ℕ → ℕ → Result Setup
allocate conf max_fragment_size bulk_size credits = do
  slots ← to_int (credits * 2 + 1)
  meta_size ← to_int (event_meta_data_size * bulk_size * slots)
  bulk_bytes ← to_int (max_fragment_size * bulk_size)
  data_size ← to_int (bulk_bytes * slots)
  assert (ltb 0 (above_zero conf.frequency))
  assert (ltb 0 (above_zero conf.mean))
  assert (not (is_negative conf.std_dev))
  ok (record {
    bulk_size = bulk_size;
    credits = credits;
    max_fragment_size = max_fragment_size;
    meta_size = meta_size;
    data_size = data_size;
    generator_frequency = above_zero conf.frequency;
    max_length = sub_size max_fragment_size event_header_size;
  })

-- `none` stands for the program's end with `EXIT_FAILURE`.
unfoldable pub configure : Configuration → Result (Option Setup)
configure conf =
    let max_fragment_size = above_zero conf.max_fragment_size in
    let bulk_size = above_zero conf.bulked_events in
    let credits = above_zero conf.credits in
    if max_fragment_size == 0
    then ok none
    else if not (max_fragment_size % event_header_size == 0)
    then ok none
    else if bulk_size == 0
    then ok none
    else if credits == 0
    then ok none
    else (allocate conf max_fragment_size bulk_size credits >>= λ s. ok (some s))
