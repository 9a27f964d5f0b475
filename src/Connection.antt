-- ===== src/Connection.antt =====
-- The connections of both transports: which resources of the libraries are opened, used and closed on the way. An action
-- gives the calls that it makes on resources, in this order, and its result; what the libraries answer is an argument.
-- Whether a resource may be used and whether a call closes it, is not said here but in Connection/Ledger.
pub mod Verbs
pub mod Fabric
pub mod Ledger
use lseb.Prelude.{
  Bool, true, false, Result, ok, err, thrown, Exception, LibraryCall, if◌then◌else◌, List, [], ◌∷◌,
  ◌++◌,
}

-- The resources, by the variables that hold them.
pub data Handle : Type 0 where
  addr_info cm_id new_cm_id : Handle
  hints info request_info fabric domain pep pep_eq ep rx_cq tx_cq eq : Handle

-- A call that opens a resource, that works on it, that binds the first one to the second, or that is to close it. The
-- program does not look at the answer of the last.
pub data Event : Type 0 where
  opened : Handle → Event
  used : Handle → Event
  bound : Handle → Handle → Event
  closing : Handle → Event

abbrev pub uses : List Handle → List Event
uses [] = []
uses (h ∷ hs) = used h ∷ uses hs

abbrev pub Action : Type 0 → Type 0
Action A = List Event × Result A

module _ {A : Type 0} where
  abbrev pub throw : Exception → Action A
  throw e = ([], err (thrown e))

  abbrev pub done : A → Action A
  done value = ([], ok value)

  -- A unique pointer: its deleter is called if the rest of its scope throws. Otherwise the rest has released it.
  abbrev pub own : Handle → Action A → Action A
  own h (events, ok value) = (events, ok value)
  own h (events, err e) = (events ++ closing h ∷ [], err e)

  -- What is done if the action throws, after its own scopes are left.
  abbrev pub on_error : Action A → Action (Unit {0}) → Action A
  on_error (events, ok value) cleanup = (events, ok value)
  on_error (events, err e) cleanup = (events ++ cleanup.0, err e)

  -- A unique pointer whose deleter is called at the end of the scope in any case.
  abbrev pub hold : Handle → Action A → Action A
  hold h (events, r) = (events ++ closing h ∷ [], r)

infixl 5 ◌>>=◌
abbrev pub ◌>>=◌ : {A B : Type 0} → Action A → (A → Action B) → Action B
(events, err e) >>= rest = (events, err e)
(events, ok value) >>= rest = let (later, r) = rest value in (events ++ later, r)

infixl 5 ◌>>◌
abbrev pub ◌>>◌ : {A B : Type 0} → Action A → Action B → Action B
first >> rest = first >>= λ _. rest

-- A call on these resources that returns an error code; the flag says whether it succeeds.
abbrev pub check : List Handle → Bool → LibraryCall → Action (Unit {0})
check hs true call = (uses hs, ok tt)
check hs false call = (uses hs, err (thrown (Exception.call_failed call)))

-- A call on these resources that opens another.
abbrev pub open_handle : List Handle → Handle → Bool → LibraryCall → Action (Unit {0})
open_handle hs h true call = (uses hs ++ opened h ∷ [], ok tt)
open_handle hs h false call = (uses hs, err (thrown (Exception.call_failed call)))

abbrev pub bind_handle : Handle → Handle → Bool → LibraryCall → Action (Unit {0})
bind_handle h q true call = (bound h q ∷ [], ok tt)
bind_handle h q false call = (used h ∷ used q ∷ [], err (thrown (Exception.call_failed call)))

abbrev pub close : Handle → Action (Unit {0})
close h = (closing h ∷ [], ok tt)
