-- ===== src/Tests/Logs.antt =====
-- A core that keeps two flags, and a few operations on the log over it.
use lseb.Prelude.{
  ◌≡◌, refl, ◌≢◌, ◌⊎◌, Bool, true, false, ok, err, thrown, Exception, List, [], ◌∷◌, none, some,
}
use Prim.Native.String.{String, ◌++◌}
use lseb.Log.Level.{Severity, name, info, warning, severity_from_string}
use lseb.Log.{Core, Target, console, file, destroy}
use lseb.Log.Sinks.{IsCore, Operation, initialise, attach_console, attach_file, perform_all}
use lseb.Program.Logging.{node_name, open_log, closed, open_log-target}
use lseb.Log.Messages.{destroy-perform_all, fresh}

abbrev put : Bool × Bool → Target → Bool → Bool × Bool
put (c, f) console b = (b, f)
put (c, f) file b = (c, b)

abbrev get : Bool × Bool → Target → Bool
get (c, f) console = c
get (c, f) file = f

abbrev flags : Core
flags = record {
  State = Bool × Bool;
  add_sink = λ s t. put s t true;
  remove_sink = λ s t. put s t false;
  has_sink = get;
}

get-put : (s : Bool × Bool) (t : Target) (b : Bool) → get (put s t b) t ≡ b
get-put (c, f) console b = refl
get-put (c, f) file b = refl

flags-IsCore : IsCore flags
flags-IsCore = record {
  adds = λ s t. get-put s t true;
  removes = λ s t. get-put s t false;
  keeps_file = λ s. refl;
  keeps_console = λ s. refl;
  leaves_file = λ s. refl;
  leaves_console = λ s. refl;
}

-- The console with a level, a second time without success, and a file without a level.
abbrev operations : List Operation
operations =
    initialise
    ∷ attach_console (some warning)
    ∷ attach_console none
    ∷ attach_file "lseb" 1048576 none
    ∷ []

destroy-perform_all_example :
    ((perform_all flags (fresh flags (false, false)) operations).1
      ≡ ok tt ∷ ok tt ∷ err (thrown Exception.sink_present) ∷ ok tt ∷ [])
    × (destroy flags (perform_all flags (fresh flags (false, false)) operations).0 info
        ≡ ok (file ∷ []))
destroy-perform_all_example =
    destroy-perform_all flags (false, false) operations info flags-IsCore refl refl

info_level : severity_from_string "INFO" ≡ ok info
unfolding severity_from_string
info_level = refl

abbrev no_directory : String
no_directory = ""

-- No directory is given, and the log goes to the console.
open_log-target_example :
    ((level : Severity) × (name info ≡ name level)
      × (((no_directory ≡ "")
            × (open_log flags (closed flags (false, false)) no_directory "node" "host" (name info)
                ≡ ok (record {
                  init_flag = true;
                  console_sink = some (record { filter = some level });
                  file_sink = none;
                  sinks = flags.add_sink (false, false) console;
                })))
          ⊎ ((no_directory ≢ "")
              × (open_log flags (closed flags (false, false)) no_directory "node" "host" (name info)
                  ≡ ok (record {
                    init_flag = true;
                    console_sink = none;
                    file_sink = some (record {
                      filename = no_directory ++ ("/" ++ node_name "node" "host");
                      rotation_size = 1048576;
                      filter = some level;
                    });
                    sinks = flags.add_sink (false, false) file;
                  })))))
    ⊎ ((¬ ((level : Severity) × (name info ≡ name level)))
        × (open_log flags (closed flags (false, false)) no_directory "node" "host" (name info)
            ≡ err (thrown Exception.unknown_level)))
open_log-target_example =
    open_log-target flags (false, false) no_directory "node" "host" (name info)
