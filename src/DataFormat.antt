-- ===== src/DataFormat.antt =====
-- common/dataformat.h: an event's entry in the metadata ring and its header in the data memory; and
-- `iovec`, a piece of memory. An address is a number of bytes.
use lseb.Prelude.{ℕ, ◌==◌, if◌then◌else◌}

pub record EventMetaData : Type 0 where
  pub id : ℕ
  pub length : ℕ
  pub offset : ℕ

pub record EventHeader : Type 0 where
  pub id : ℕ
  pub length : ℕ
  pub flags : ℕ

-- `sizeof`: three fields of 64 bits.
abbrev pub event_header_size : ℕ
event_header_size = 24

abbrev pub event_meta_data_size : ℕ
event_meta_data_size = 24

pub record Iovec : Type 0 where
  pub base : ℕ
  pub len : ℕ

-- Memory that holds values of one type, by pointer.
abbrev pub Memory : Type 0 → Type 0
Memory A = ℕ → A

abbrev pub write : {A : Type 0} → Memory A → ℕ → A → Memory A
write m p v = λ q. if q == p then v else m q
