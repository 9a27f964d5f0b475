-- ===== src/Log/Messages.antt =====
-- Which targets a message reaches, after any operations.
use lseb.Prelude.{
  ◌≡◌, refl, ap, ◌∙◌, Bool, true, false, Result, ok, err, aborted, if◌then◌else◌, leb, List, [],
  ◌∷◌, ◌++◌, Option, none, some,
}
use lseb.Log.Level.{Severity, rank}
use lseb.Log.{Core, Log, Target, console, file, passes, filter_of, reaches, destroy}
use lseb.Log.Sinks.{
  IsCore, Operation, Promise, promised_all, perform, perform_all, promise_of, Consistent,
  perform-Keeps, is_there,
}

-- Whether a target with this filter, if it is on, takes a message.
abbrev pub accepts : Option (Option Severity) → Severity → Bool
accepts none severity = false
accepts (some none) severity = true
accepts (some (some level)) severity = leb (rank level) (rank severity)

-- The end of a log message: the targets that take it, or the end of the process while the log is not initialised.
abbrev pub promised_message : Promise → Severity → Result (List Target)
promised_message p severity =
    if p.on
    then ok (
        (if accepts p.console_filter severity then console ∷ [] else [])
        ++ (if accepts p.file_filter severity then file ∷ [] else []))
    else err aborted

module _ (core : Core) where
  reaches-accepts :
      (t : Target) (f : Option (Option Severity)) (l : Log core) (severity : Severity)
      → filter_of core l t ≡ f
      → core.has_sink l.sinks t ≡ is_there core f
      → reaches core l severity t ≡ accepts f severity
  unfolding reaches passes
  reaches-accepts t none l severity e h = rw (reaches, e)
  reaches-accepts t (some none) l severity e h = rw (reaches, e, h)
  reaches-accepts t (some (some level)) l severity e h = rw (reaches, e, h)

  destroy-promised :
      (l : Log core) (severity : Severity)
      → Consistent core l
      → destroy core l severity ≡ promised_message (promise_of core l) severity
  unfolding destroy
  destroy-promised l severity c = rw (
    reaches-accepts console (filter_of core l console) l severity refl c.has_console,
    reaches-accepts file (filter_of core l file) l severity refl c.has_file,
  )

  perform_all-Consistent :
      (l : Log core) (ops : List Operation)
      → IsCore core
      → Consistent core l
      → Consistent core (perform_all core l ops).0
        × (promise_of core (perform_all core l ops).0 ≡ (promised_all (promise_of core l) ops).0)
        × ((perform_all core l ops).1 ≡ (promised_all (promise_of core l) ops).1)
  perform_all-Consistent l [] k c = (c, refl, refl)
  perform_all-Consistent l (op ∷ ops) k c =
      let (c', p, r) = perform-Keeps core l op k c in
      let (c'', q, rs) = perform_all-Consistent (perform core l op).0 ops k c' in
      (c'', rw (← p) q, rw (← p, r, rs))

abbrev pub nothing_on : Promise
nothing_on = record { on = false; console_filter = none; file_filter = none }

-- Before the first call.
abbrev pub fresh : (core : Core) → core.State → Log core
fresh core s = record { init_flag = false; console_sink = none; file_sink = none; sinks = s }

-- Over a core with no sinks at first, any sequence of operations ends as promised, each in success
-- or its exception: a target is on from when it is added, with the filter it was added with, until
-- it is removed, and no exception changes anything. A message then reaches exactly the targets that
-- are on and whose level it has, or ends the process if the log is not initialised.
pub destroy-perform_all :
    (core : Core) (s : core.State) (ops : List Operation) (severity : Severity)
    → IsCore core
    → core.has_sink s console ≡ false
    → core.has_sink s file ≡ false
    → ((perform_all core (fresh core s) ops).1 ≡ (promised_all nothing_on ops).1)
      × (destroy core (perform_all core (fresh core s) ops).0 severity
          ≡ promised_message (promised_all nothing_on ops).0 severity)
unfolding filter_of
destroy-perform_all core s ops severity k h g =
    let (c, p, r) =
      perform_all-Consistent core (fresh core s) ops k (record { has_console = h; has_file = g }) in
    (
      r,
      destroy-promised core (perform_all core (fresh core s) ops).0 severity c
          ∙ ap (λ q. promised_message q severity) p,
    )
