-- ===== src/Log/Sinks.antt =====
-- The log against what it promises: which targets are on, with which level, and which messages they get.
use Prim.Native.String.{String}
use lseb.Prelude.{
  ℕ, ◌≡◌, refl, ◌∙◌, Bool, true, false, Result, ok, err, thrown, Exception, if◌then◌else◌, List, [],
  ◌∷◌, Option, none, some,
}
use lseb.Log.Level.{Severity}
use lseb.Log.{
  Core, Log, Sink, FileSink, Target, console, file, init, add_console, add_file, add_console_sink,
  add_file_sink, remove_console, remove_file, filter_of,
}

-- What Boost documents: a sink that is added is there until it is removed, whatever becomes of the others.
pub record IsCore (core : Core) : Type 0 where
  pub adds : (s : core.State) (t : Target) → core.has_sink (core.add_sink s t) t ≡ true
  pub removes : (s : core.State) (t : Target) → core.has_sink (core.remove_sink s t) t ≡ false
  pub keeps_file :
      (s : core.State) → core.has_sink (core.add_sink s console) file ≡ core.has_sink s file
  pub keeps_console :
      (s : core.State) → core.has_sink (core.add_sink s file) console ≡ core.has_sink s console
  pub leaves_file :
      (s : core.State) → core.has_sink (core.remove_sink s console) file ≡ core.has_sink s file
  pub leaves_console :
      (s : core.State) → core.has_sink (core.remove_sink s file) console ≡ core.has_sink s console

pub data Operation : Type 0 where
  initialise : Operation
  attach_console : Option Severity → Operation
  attach_file : String → ℕ → Option Severity → Operation
  detach_console : Operation
  detach_file : Operation

-- What a reader of the interface knows: whether the log is initialised, and for each target that is on its filter.
pub record Promise : Type 0 where
  pub on : Bool
  pub console_filter : Option (Option Severity)
  pub file_filter : Option (Option Severity)

-- A target that is switched on must be off, and one that is switched off must be on.
abbrev attach :
    Bool → Option (Option Severity) → Option Severity → Result (Option (Option Severity))
attach false target level = err (thrown Exception.log_uninitialized)
attach true (some level') level = err (thrown Exception.sink_present)
attach true none level = ok (some level)

abbrev detach : Bool → Option (Option Severity) → Result (Option (Option Severity))
detach false target = err (thrown Exception.log_uninitialized)
detach true none = err (thrown Exception.sink_missing)
detach true (some level) = ok none

-- The outcome of an operation that may throw: then nothing has changed.
abbrev pub attempt {ℓ κ} :
    {A : Type ℓ} {B : Type κ} → A → (B → A) → Result B → A × Result (Unit {0})
attempt old new (ok value) = (new value, ok tt)
attempt old new (err e) = (old, err e)

abbrev pub promised : Promise → Operation → Promise × Result (Unit {0})
promised p initialise =
    attempt p (λ b. record p { on = b })
      (if p.on then err (thrown Exception.log_already_initialized) else ok true)
promised p (attach_console level) =
    attempt p (λ f. record p { console_filter = f }) (attach p.on p.console_filter level)
promised p (attach_file filename bytes level) =
    attempt p (λ f. record p { file_filter = f }) (attach p.on p.file_filter level)
promised p detach_console =
    attempt p (λ f. record p { console_filter = f }) (detach p.on p.console_filter)
promised p detach_file = attempt p (λ f. record p { file_filter = f }) (detach p.on p.file_filter)

module _ (core : Core) where
  abbrev pub perform : Log core → Operation → Log core × Result (Unit {0})
  perform l initialise = attempt l (λ l. l) (init core l)
  perform l (attach_console level) = attempt l (λ l. l) (add_console core l level)
  perform l (attach_file filename bytes level) =
      attempt l (λ l. l) (add_file core l filename bytes level)
  perform l detach_console = attempt l (λ l. l) (remove_console core l)
  perform l detach_file = attempt l (λ l. l) (remove_file core l)

  abbrev pub promise_of : Log core → Promise
  promise_of l = record {
    on = l.init_flag;
    console_filter = filter_of core l console;
    file_filter = filter_of core l file;
  }

  -- The core has the sinks that are there.
  abbrev pub is_there : Option (Option Severity) → Bool
  is_there none = false
  is_there (some level) = true

  pub record Consistent (l : Log core) : Type 0 where
    pub has_console : core.has_sink l.sinks console ≡ is_there (filter_of core l console)
    pub has_file : core.has_sink l.sinks file ≡ is_there (filter_of core l file)

  abbrev log : Bool → Option Sink → Option FileSink → core.State → Log core
  log i a b s = record { init_flag = i; console_sink = a; file_sink = b; sinks = s }

  -- An operation does what it promises.
  abbrev pub Keeps : Log core → Operation → Type 0
  Keeps l op =
      Consistent (perform l op).0
      × (promise_of (perform l op).0 ≡ (promised (promise_of l) op).0)
      × ((perform l op).1 ≡ (promised (promise_of l) op).1)

  log-Keeps :
      (i : Bool) (a : Option Sink) (b : Option FileSink) (s : core.State) (op : Operation)
      → IsCore core
      → Consistent (log i a b s)
      → Keeps (log i a b s) op
  unfolding init filter_of add_console add_file add_console_sink add_file_sink remove_console
      remove_file
  log-Keeps false a b s initialise k c =
      (record { has_console = c.has_console; has_file = c.has_file }, refl, refl)
  log-Keeps true a b s initialise k c = (c, refl, refl)
  log-Keeps false a b s (attach_console none) k c = (c, refl, refl)
  log-Keeps false a b s (attach_console (some level)) k c = (c, refl, refl)
  log-Keeps true (some a) b s (attach_console none) k c = (c, refl, refl)
  log-Keeps true (some a) b s (attach_console (some level)) k c = (c, refl, refl)
  log-Keeps true none b s (attach_console none) k c = (
    record { has_console = k.adds s console; has_file = k.keeps_file s ∙ c.has_file },
    refl,
    refl,
  )
  log-Keeps true none b s (attach_console (some level)) k c = (
    record { has_console = k.adds s console; has_file = k.keeps_file s ∙ c.has_file },
    refl,
    refl,
  )
  log-Keeps false b a s (attach_file filename bytes none) k c = (c, refl, refl)
  log-Keeps false b a s (attach_file filename bytes (some level)) k c = (c, refl, refl)
  log-Keeps true b (some a) s (attach_file filename bytes none) k c = (c, refl, refl)
  log-Keeps true b (some a) s (attach_file filename bytes (some level)) k c = (c, refl, refl)
  log-Keeps true b none s (attach_file filename bytes none) k c = (
    record { has_file = k.adds s file; has_console = k.keeps_console s ∙ c.has_console },
    refl,
    refl,
  )
  log-Keeps true b none s (attach_file filename bytes (some level)) k c = (
    record { has_file = k.adds s file; has_console = k.keeps_console s ∙ c.has_console },
    refl,
    refl,
  )
  log-Keeps false a b s detach_console k c = (c, refl, refl)
  log-Keeps true none b s detach_console k c = (c, refl, refl)
  log-Keeps true (some a) b s detach_console k c = (
    record { has_console = k.removes s console; has_file = k.leaves_file s ∙ c.has_file },
    refl,
    refl,
  )
  log-Keeps false b a s detach_file k c = (c, refl, refl)
  log-Keeps true b none s detach_file k c = (c, refl, refl)
  log-Keeps true b (some a) s detach_file k c = (
    record { has_file = k.removes s file; has_console = k.leaves_console s ∙ c.has_console },
    refl,
    refl,
  )

  pub perform-Keeps : (l : Log core) (op : Operation) → IsCore core → Consistent l → Keeps l op
  perform-Keeps l op k c = log-Keeps l.init_flag l.console_sink l.file_sink l.sinks op k c

  -- A sequence of operations, and what each of them ended in.
  abbrev pub perform_all : Log core → List Operation → Log core × List (Result (Unit {0}))
  perform_all l [] = (l, [])
  perform_all l (op ∷ ops) =
      let (l', r) = perform l op in let (l'', rs) = perform_all l' ops in (l'', r ∷ rs)

-- The targets that are on, and let the severity pass.
abbrev pub promised_all : Promise → List Operation → Promise × List (Result (Unit {0}))
promised_all p [] = (p, [])
promised_all p (op ∷ ops) =
    let (p', r) = promised p op in let (p'', rs) = promised_all p' ops in (p'', r ∷ rs)
