-- ===== src/Program/Logging.antt =====
-- main.cpp: where the log goes, by the options for the directory and for the node's name.
use Prim.Native.String.{String, ◌++◌}
use text.Mathlib.Text.{◌==◌}
use text.Mathlib.TextLemmas.{append_cancel_right, nil-append}
use text.Mathlib.TextEquality.{eq_iff}
use lseb.Prelude.{
  ◌*◌, ◌≡◌, ◌≢◌, refl, sym, ap, ◌∙◌, true, false, Bool-cases, Result, ok, err, thrown, Exception,
  ◌>>=◌, if◌then◌else◌, ◌⊎◌, inl, inr, none, some,
}
use lseb.Log.{
  Core, Log, console, file, init, add_console, add_file, add_console_sink, add_file_sink,
}
use lseb.Log.Level.{Severity, name, severity_from_string, severity_from_string-name}

-- Without the option the node's name is that of the host.
unfoldable pub node_name : String → String → String
node_name str_nodename host_name = if str_nodename == "" then host_name else str_nodename

empty-given :
    (str_logdir nodename : String)
    → (str_logdir ++ ("/" ++ nodename) == "/" ++ nodename) ≡ true
    → str_logdir ≡ ""
empty-given str_logdir nodename same = append_cancel_right str_logdir "" ("/" ++ nodename) (
    (eq_iff (str_logdir ++ ("/" ++ nodename)) ("/" ++ nodename)).0 same
    ∙ sym (nil-append ("/" ++ nodename)))

given :
    (str_logdir nodename : String)
    → (str_logdir ++ ("/" ++ nodename) == "/" ++ nodename) ≡ false
    → str_logdir ≢ ""
given str_logdir nodename other empty = cc (
  other,
  (eq_iff (str_logdir ++ ("/" ++ nodename)) ("/" ++ nodename)).1
      (ap (λ t. t ++ ("/" ++ nodename)) empty ∙ nil-append ("/" ++ nodename)),
)

module _ (core : Core) where
  unfoldable pub open_log : Log core → String → String → String → String → Result (Log core)
  open_log l str_logdir str_nodename host_name log_level = do
    l' ← init core l
    let logdir_postfix = "/" ++ node_name str_nodename host_name
    let logdir = str_logdir ++ logdir_postfix
    severity ← severity_from_string log_level
    if logdir == logdir_postfix
        then add_console core l' (some severity)
        else add_file core l' logdir (1024 * 1024) (some severity)

  -- A log before the first call.
  abbrev pub closed : core.State → Log core
  closed sinks = record { init_flag = false; console_sink = none; file_sink = none; sinks = sinks }

  -- With a known level the log goes to the console if no directory is given, and otherwise to a file
  -- with the node's name, or the host's if that is empty, in the directory, which is rotated at a
  -- megabyte, and to one of them only; without one the program ends with the exception for an
  -- unknown level.
  pub open_log-target :
      (sinks : core.State) (str_logdir str_nodename host_name log_level : String)
      → ((level : Severity) × (log_level ≡ name level)
          × (((str_logdir ≡ "")
                × (open_log (closed sinks) str_logdir str_nodename host_name log_level
                    ≡ ok (record {
                      init_flag = true;
                      console_sink = some (record { filter = some level });
                      file_sink = none;
                      sinks = core.add_sink sinks console;
                    })))
              ⊎ ((str_logdir ≢ "")
                  × (open_log (closed sinks) str_logdir str_nodename host_name log_level
                      ≡ ok (record {
                        init_flag = true;
                        console_sink = none;
                        file_sink = some (record {
                          filename = str_logdir ++ ("/" ++ node_name str_nodename host_name);
                          rotation_size = 1048576;
                          filter = some level;
                        });
                        sinks = core.add_sink sinks file;
                      })))))
        ⊎ ((¬ ((level : Severity) × (log_level ≡ name level)))
            × (open_log (closed sinks) str_logdir str_nodename host_name log_level
                ≡ err (thrown Exception.unknown_level)))
  unfolding open_log init add_console add_file add_console_sink add_file_sink
  open_log-target sinks str_logdir str_nodename host_name log_level =
      elim (severity_from_string-name log_level) [
        | inr (n, e) ↦ inr (n, rw e refl)
        | inl (level, named, e) ↦
            elim (Bool-cases (
              str_logdir ++ ("/" ++ node_name str_nodename host_name)
              == "/" ++ node_name str_nodename host_name)) [
                | inl same ↦ inl (
                  level,
                  named,
                  inl (
                    empty-given str_logdir (node_name str_nodename host_name) same,
                    rw (e, same) refl,
                  ),
                )
                | inr other ↦ inl (
                  level,
                  named,
                  inr (
                    given str_logdir (node_name str_nodename host_name) other,
                    rw (e, other) refl,
                  ),
                )
              ]
      ]
