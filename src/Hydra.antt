-- ===== src/Hydra.antt =====
-- launcher/hydra_launcher.cpp, and the exchange of the addresses in main.cpp: a process of the job publishes its
-- address in the key-value space of PMI. PMI is an argument of the functions; texts are lists of codes.
pub mod Decimal
pub mod Exchange
pub mod Calls
pub mod Progress
pub mod Liveness
use lseb.Prelude.{
  ℕ, ◌+◌, ◌%◌, Bool, true, false, Result, ok, err, aborted, undefined, ◌>>=◌, ◌>>◌, ltb, leb, ◌==◌,
  if◌then◌else◌, List, [], ◌∷◌, ◌++◌, length, ℤ, pos, negsuc,
}
use lseb.Hydra.Decimal.{Text, decimal}

-- The calls of PMI: the process that calls is their second argument, and the first value is the status.
pub record Pmi : Type 1 where
  pub State : Type 0
  pub initialise : State → ℕ → ℤ × State
  pub kvs_name_length_max : State → ℕ → ℤ × ℕ
  pub kvs_my_name : State → ℕ → ℤ × Text
  pub rank : State → ℕ → ℤ × ℕ
  pub size : State → ℕ → ℤ × ℕ
  pub finalise : State → ℕ → ℤ × State
  pub barrier : State → ℕ → ℤ × State
  pub kvs_put : State → ℕ → Text → Text → Text → ℤ × State
  pub kvs_commit : State → ℕ → Text → ℤ × State
  pub kvs_get : State → ℕ → Text → Text → ℤ × Text

pub record HydraLauncher : Type 0 where
  pub kvs_name : Text

-- `PMI_CHECK_STATUS`: the message of a failure is read from a table of 15 entries.
unfoldable pub check_status : ℤ → Result (Unit {0})
check_status (negsuc n) = err undefined
check_status (pos n) = if n == 0 then ok tt else if ltb n 15 then err aborted else err undefined

-- A call with its status checked.
abbrev checked : {A : Type 0} → ℤ × A → Result A
checked (status, value) = check_status status >> ok value

-- `sprintf` with "%s-%d" into a buffer of 512 characters.
unfoldable pub key_at : Text → ℕ → Result Text
key_at key rank =
    let text = key ++ b'-' ∷ decimal rank in
    if ltb (length text) 512 then ok text else err undefined

abbrev pub ip_key : Text
ip_key = b'i' ∷ b'p' ∷ []

abbrev pub port_key : Text
port_key = b'p' ∷ b'o' ∷ b'r' ∷ b't' ∷ []

-- The port of the process, for a first port and a range from 0 up, printed into a buffer of 8 characters.
unfoldable pub port_text : ℕ → ℕ → ℕ → Result Text
port_text port range rank =
    if range == 0
    then err undefined
    else (let text = decimal (port + rank % range) in
        if ltb (length text) 8 then ok text else err undefined)

module _ (pmi : Pmi) where
  -- The status is not looked at.
  unfoldable pub finalize : pmi.State → ℕ → pmi.State
  finalize s self = (pmi.finalise s self).1

  unfoldable pub barrier : pmi.State → ℕ → Result pmi.State
  barrier s self = checked (pmi.barrier s self)

  unfoldable pub get_world_size : pmi.State → ℕ → Result ℕ
  get_world_size s self = checked (pmi.size s self)

  unfoldable pub get_rank : pmi.State → ℕ → Result ℕ
  get_rank s self = checked (pmi.rank s self)

  -- At the end the rank is read, for a message of the log.
  unfoldable pub initialize : pmi.State → ℕ → Result (pmi.State × HydraLauncher)
  initialize s self = do
    s' ← checked (pmi.initialise s self)
    size ← checked (pmi.kvs_name_length_max s' self)
    if leb 1024 size then err aborted else do
      name ← checked (pmi.kvs_my_name s' self)
      rank ← get_rank s' self
      ok (s', record { kvs_name = name })

  unfoldable pub commit : HydraLauncher → pmi.State → ℕ → Result pmi.State
  commit l s self = checked (pmi.kvs_commit s self l.kvs_name)

  unfoldable pub set_value : HydraLauncher → pmi.State → ℕ → Text → Text → Result pmi.State
  set_value l s self key value = do
    rank ← get_rank s self
    buffer ← key_at key rank
    checked (pmi.kvs_put s self l.kvs_name buffer value)

  unfoldable pub get : HydraLauncher → pmi.State → ℕ → Text → ℕ → Result Text
  get l s self key rank = do
    buffer ← key_at key rank
    checked (pmi.kvs_get s self l.kvs_name buffer)

  unfoldable pub set_ip : HydraLauncher → pmi.State → ℕ → Text → Result pmi.State
  set_ip l s self ip = set_value l s self ip_key ip

  unfoldable pub set_port : HydraLauncher → pmi.State → ℕ → ℕ → ℕ → Result pmi.State
  set_port l s self port range = do
    rank ← get_rank s self
    text ← port_text port range rank
    set_value l s self port_key text
