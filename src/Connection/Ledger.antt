-- ===== src/Connection/Ledger.antt =====
-- What a sequence of events does to the resources: which are open after it, and which are closed too early.
pub mod Verbs
pub mod Fabric
use lseb.Prelude.{
  ◌≡◌, refl, Bool, true, false, Result, ok, err, Option, none, some, List, [], ◌∷◌, ◌++◌, ◌⊎◌, inl,
  inr, if◌then◌else◌, ℕ, ◌==◌, not, ◌&&◌, ◌||◌,
}
use lseb.Connection.{
  Handle, addr_info, cm_id, new_cm_id, hints, info, request_info, fabric, domain, pep, pep_eq, ep,
  rx_cq, tx_cq, eq, Event, opened, used, bound, closing, Action,
}

-- The place of a handle in the list of its type.
abbrev code : Handle → ℕ
code addr_info = 0
code cm_id = 1
code new_cm_id = 2
code hints = 3
code info = 4
code request_info = 5
code fabric = 6
code domain = 7
code pep = 8
code pep_eq = 9
code ep = 10
code rx_cq = 11
code tx_cq = 12
code eq = 13

abbrev pub is_open : Handle → List Handle → Bool
is_open h [] = false
is_open h (g ∷ gs) = (code h == code g) || is_open h gs

abbrev remove : Handle → List Handle → List Handle
remove h [] = []
remove h (g ∷ gs) = if code h == code g then gs else g ∷ remove h gs

-- Whether a handle that is open is bound to this one.
abbrev is_bound : Handle → List (Handle × Handle) → Bool
is_bound q [] = false
is_bound q ((h, p) ∷ bindings) = (code q == code p) || is_bound q bindings

-- The bindings that are left when a handle is closed.
abbrev unbind : Handle → List (Handle × Handle) → List (Handle × Handle)
unbind h [] = []
unbind h ((g, q) ∷ bindings) =
    if code h == code g then unbind h bindings else (g, q) ∷ unbind h bindings

-- The handles that are open after these events, the last one first; `none` if a handle is opened while it is open, or
-- worked on or closed while it is not. A handle to which an open one is bound is not closed: libfabric refuses that,
-- and the handle stays open.
abbrev pub replay : List Event → List (Handle × Handle) → List Handle → Option (List Handle)
replay [] bindings live = some live
replay (opened h ∷ events) bindings live = elim (is_open h live) [
  | true ↦ none
  | false ↦ replay events bindings (h ∷ live)
]
replay (used h ∷ events) bindings live = elim (is_open h live) [
  | true ↦ replay events bindings live
  | false ↦ none
]
replay (bound h q ∷ events) bindings live = elim (is_open h live && is_open q live) [
  | true ↦ replay events ((h, q) ∷ bindings) live
  | false ↦ none
]
replay (closing h ∷ events) bindings live = elim (is_open h live) [
  | true ↦ elim (is_bound h bindings) [
    | true ↦ replay events bindings live
    | false ↦ replay events (unbind h bindings) (remove h live)
  ]
  | false ↦ none
]

-- The queues to which something is bound by these events, the last one first, before those of `acc`.
abbrev pub bound_queues : List Event → List Handle → List Handle
bound_queues [] acc = acc
bound_queues (opened h ∷ events) acc = bound_queues events acc
bound_queues (used h ∷ events) acc = bound_queues events acc
bound_queues (bound h q ∷ events) acc = bound_queues events (q ∷ acc)
bound_queues (closing h ∷ events) acc = bound_queues events acc

-- With the handles of `live` open before, an action that succeeds leaves those of `owned` open as well, and the
-- destructor's calls close these; one that throws leaves no more open than before.
abbrev pub Leaves : Action (Unit {0}) → Action (Unit {0}) → List Handle → List Handle → Type 0
Leaves (events, ok value) destructor owned live =
    (replay events [] live ≡ some (owned ++ live))
    × (replay (events ++ destructor.0) [] live ≡ some live)
Leaves (events, err e) destructor owned live = replay events [] live ≡ some live
