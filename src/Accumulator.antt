-- ===== src/Accumulator.antt =====
-- ru/accumulator.cpp: groups events into multievents, hands their memory out and takes it back in any
-- order, releasing it in the order of the events.
pub mod Window
pub mod Invariant
pub mod Take
pub mod Acquire
pub mod Release
pub mod Disjoint
pub mod Apart
pub mod Mark
pub mod Start
pub mod History
pub mod Undone
use lseb.Prelude.{
  ℕ, zero, suc, ◌+◌, ◌-◌, ◌*◌, Bool, true, false, not, Result, ok, err, assert_failed, assert,
  ◌>>=◌, ◌>>◌, leb, ltb, ◌==◌, if◌then◌else◌, sub_size, pos, negsuc, to_int, List, [], ◌∷◌, ◌++◌,
  Option, none, some, length, drop,
}
use lseb.DataFormat.{EventMetaData, Iovec, Memory}
use lseb.Range.{Range, distance_in_range, advance_in_range, find_in_range}
use lseb.Controller.{Controller, read}
use lseb.Controller

-- `generated_events` counts the events that are in no multievent yet. A multievent that is out is its
-- base address and whether it came back.
pub record Accumulator : Type 0 where
  pub controller : Controller
  pub metadata_range : Range
  pub data_range : Range
  pub current_metadata : ℕ
  pub events_in_multievent : ℕ
  pub generated_events : ℕ
  pub iov_multievents : List (ℕ × Bool)
  pub release_metadata : ℕ

unfoldable pub create : Controller → Range → Range → ℕ → Accumulator
create controller metadata_range data_range events_in_multievent = record {
  controller = controller;
  metadata_range = metadata_range;
  data_range = data_range;
  current_metadata = metadata_range.begin;
  events_in_multievent = events_in_multievent;
  generated_events = 0;
  iov_multievents = [];
  release_metadata = metadata_range.begin;
}

-- The part of `get_multievent` that asks the controller for events.
unfoldable pub acquire : Accumulator → ℕ → Result Accumulator
acquire a due = do
  (controller, meta) ← read a.controller due
  n ← distance_in_range meta a.metadata_range
  generated ← to_int (a.generated_events + n)
  ok (record a { controller = controller; generated_events = generated })

-- The functions that read the events' metadata take its memory.
module _ (metadata : Memory EventMetaData) where
  -- `checkDataWrap`
  unfoldable pub check_data_wrap : Accumulator → Range → Result Bool
  check_data_wrap a multievent_metadata = do
    let first_offset = (metadata multievent_metadata.begin).offset
    it ←
        find_in_range multievent_metadata a.metadata_range
          (λ m. ltb (metadata m).offset first_offset)
    ok (not (it == multievent_metadata.end))

  -- The part of `get_multievent` that takes a multievent off the generated events.
  unfoldable pub take_multievent : Accumulator → Result (Accumulator × Option Iovec)
  take_multievent a = do
    end ← advance_in_range a.current_metadata (pos a.events_in_multievent) a.metadata_range
    wrap ← check_data_wrap a (record { begin = a.current_metadata; end = end })
    assert (not wrap)
    let data_begin = a.data_range.begin + (metadata a.current_metadata).offset
    last ← advance_in_range end (negsuc 0) a.metadata_range
    let data_end = a.data_range.begin + (metadata last).offset + (metadata last).length
    ok (
      record a {
        iov_multievents = a.iov_multievents ++ (data_begin, false) ∷ [];
        generated_events = a.generated_events - a.events_in_multievent;
        current_metadata = end;
      },
      some (record { base = data_begin; len = sub_size data_end data_begin }),
    )

  -- `get_multievent`; `none` stands for a pair whose second part is false.
  unfoldable pub get_multievent : Accumulator → ℕ → Result (Accumulator × Option Iovec)
  get_multievent a due = do
    a' ← if ltb a.generated_events a.events_in_multievent then acquire a due else ok a
    if leb a'.events_in_multievent a'.generated_events then take_multievent a' else ok (a', none)

-- How many multievents at the front came back: the distance to the first that did not.
unfoldable pub released_prefix : List (ℕ × Bool) → ℕ
released_prefix [] = 0
released_prefix ((p, true) ∷ r) = suc (released_prefix r)
released_prefix ((p, false) ∷ r) = 0

-- `releaseContiguousMemory`
unfoldable pub release_contiguous_memory : Accumulator → Result (Accumulator × ℕ)
release_contiguous_memory a = do
  multievents_to_release ← to_int (released_prefix a.iov_multievents)
  if multievents_to_release == 0 then ok (a, 0) else do
    n ← to_int (a.events_in_multievent * multievents_to_release)
    end ← advance_in_range a.release_metadata (pos n) a.metadata_range
    controller ← Controller.release a.controller (record { begin = a.release_metadata; end = end })
    ok (
      record a {
        release_metadata = end;
        controller = controller;
        iov_multievents = drop multievents_to_release a.iov_multievents;
      },
      multievents_to_release,
    )

-- The first multievent at the address is marked; there has to be one, not marked yet.
unfoldable pub mark : ℕ → List (ℕ × Bool) → Result (List (ℕ × Bool))
mark addr [] = err assert_failed
mark addr ((p, done) ∷ r) =
    if p == addr
    then (if done then err assert_failed else ok ((p, true) ∷ r))
    else (mark addr r >>= λ r'. ok ((p, done) ∷ r'))

unfoldable pub mark_all : List ℕ → List (ℕ × Bool) → Result (List (ℕ × Bool))
mark_all [] multievents = ok multievents
mark_all (addr ∷ vect) multievents = mark addr multievents >>= mark_all vect

unfoldable pub release_multievents : Accumulator → List ℕ → Result Accumulator
release_multievents a vect = do
  multievents ← mark_all vect a.iov_multievents
  (a', n) ← release_contiguous_memory (record a { iov_multievents = multievents })
  ok a'
