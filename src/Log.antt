-- ===== src/Log.antt =====
-- log/log.cpp: the log's sinks and levels. Boost's core, which holds the sinks that are added to it, is an argument of
-- the functions that use it.
pub mod Level
pub mod Sinks
pub mod Messages
use lseb.Prelude.{
  ℕ, Bool, true, false, not, ◌&&◌, Result, ok, err, aborted, undefined, thrown, Exception, ◌>>=◌,
  leb, if◌then◌else◌, List, [], ◌∷◌, ◌++◌, Option, none, some,
}
use Prim.Native.String.{String}
use lseb.Log.Level.{Severity, rank}

pub data Target : Type 0 where
  console file : Target

-- A sink with its filter: the least severity that passes, or none.
pub record Sink : Type 0 where
  pub filter : Option Severity

-- The file's sink has a name and a size for the rotation as well.
pub record FileSink : Type 0 where
  pub filename : String
  pub rotation_size : ℕ
  pub filter : Option Severity

-- Boost's logging core.
pub record Core : Type 1 where
  pub State : Type 0
  pub add_sink : State → Target → State
  pub remove_sink : State → Target → State
  pub has_sink : State → Target → Bool

module _ (core : Core) where
  pub record Log : Type 0 where
    pub init_flag : Bool
    pub console_sink : Option Sink
    pub file_sink : Option FileSink
    pub sinks : core.State

  unfoldable pub init : Log → Result Log
  init l =
      if l.init_flag
      then err (thrown Exception.log_already_initialized)
      else ok (record l { init_flag = true })

  -- `_add_console`
  unfoldable pub add_console_sink : Log → Result Log
  add_console_sink l =
      if not l.init_flag then err (thrown Exception.log_uninitialized) else elim l.console_sink [
        | some sink ↦ err (thrown Exception.sink_present)
        | none ↦ ok (record l {
          console_sink = some (record { filter = none });
          sinks = core.add_sink l.sinks console;
        })
      ]

  -- `_add_file`
  unfoldable pub add_file_sink : Log → String → ℕ → Result Log
  add_file_sink l filename bytes =
      if not l.init_flag then err (thrown Exception.log_uninitialized) else elim l.file_sink [
        | some sink ↦ err (thrown Exception.sink_present)
        | none ↦ ok (record l {
          file_sink = some (record { filename = filename; rotation_size = bytes; filter = none });
          sinks = core.add_sink l.sinks file;
        })
      ]

  -- The functions with a level and without.
  unfoldable pub add_console : Log → Option Severity → Result Log
  add_console l none = add_console_sink l
  add_console l (some level) = do
    l' ← add_console_sink l
    elim l'.console_sink [
      | none ↦ err undefined
      | some sink ↦ ok (record l' { console_sink = some (record sink { filter = some level }) })
    ]

  unfoldable pub add_file : Log → String → ℕ → Option Severity → Result Log
  add_file l filename bytes none = add_file_sink l filename bytes
  add_file l filename bytes (some level) = do
    l' ← add_file_sink l filename bytes
    elim l'.file_sink [
      | none ↦ err undefined
      | some sink ↦ ok (record l' { file_sink = some (record sink { filter = some level }) })
    ]

  unfoldable pub remove_console : Log → Result Log
  remove_console l =
      if not l.init_flag then err (thrown Exception.log_uninitialized) else elim l.console_sink [
        | none ↦ err (thrown Exception.sink_missing)
        | some sink ↦
            ok (record l { console_sink = none; sinks = core.remove_sink l.sinks console })
      ]

  unfoldable pub remove_file : Log → Result Log
  remove_file l =
      if not l.init_flag then err (thrown Exception.log_uninitialized) else elim l.file_sink [
        | none ↦ err (thrown Exception.sink_missing)
        | some sink ↦ ok (record l { file_sink = none; sinks = core.remove_sink l.sinks file })
      ]

  -- `trivial::severity >= level`
  unfoldable pub passes : Option Severity → Severity → Bool
  passes none severity = true
  passes (some level) severity = leb (rank level) (rank severity)

  -- The filter of a target's sink, if there is one.
  unfoldable pub filter_of : Log → Target → Option (Option Severity)
  filter_of l console = elim l.console_sink [ none ↦ none | some sink ↦ some sink.filter ]
  filter_of l file = elim l.file_sink [ none ↦ none | some sink ↦ some sink.filter ]

  -- Whether the core passes a message on to the target.
  unfoldable pub reaches : Log → Severity → Target → Bool
  reaches l severity target = elim (filter_of l target) [
    | none ↦ false
    | some level ↦ core.has_sink l.sinks target && passes level severity
  ]

  abbrev reached : Log → Severity → List Target
  reached l severity =
      (if reaches l severity console then console ∷ [] else [])
      ++ (if reaches l severity file then file ∷ [] else [])

  -- `log::~log`: the targets that the message reaches. A destructor that throws ends the process.
  unfoldable pub destroy : Log → Severity → Result (List Target)
  destroy l severity = if l.init_flag then ok (reached l severity) else err aborted
