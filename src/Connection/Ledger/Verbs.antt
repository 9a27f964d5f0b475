-- ===== src/Connection/Ledger/Verbs.antt =====
-- The connections over verbs.
use lseb.Prelude.{◌≡◌, refl, Bool, true, false, ok, err, none, some, [], ◌∷◌, ◌++◌}
use lseb.Connection.{Action, cm_id, new_cm_id}
use lseb.Connection.Ledger.{replay, Leaves}
use lseb.Connection.Verbs.{
  listen, accept, connect, create_addr_info, destroy_addr_info, destroy_acceptor, destroy_socket,
}

accept-Leaves :
    (requested accepted modified : Bool)
    → Leaves
        (accept requested accepted modified)
        (destroy_socket new_cm_id)
        (new_cm_id ∷ [])
        (cm_id ∷ [])
unfolding accept destroy_socket
accept-Leaves false accepted modified = refl
accept-Leaves true false modified = refl
accept-Leaves true true false = refl
accept-Leaves true true true = (refl, refl)

connect-Leaves :
    (found created connected modified : Bool)
    → Leaves (connect found created connected modified) (destroy_socket cm_id) (cm_id ∷ []) []
unfolding connect create_addr_info destroy_addr_info destroy_socket
connect-Leaves false created connected modified = refl
connect-Leaves true false connected modified = refl
connect-Leaves true true false modified = refl
connect-Leaves true true true false = refl
connect-Leaves true true true true = (refl, refl)

-- Whatever the library answers, `accept`, on a listening identifier that is open, and `connect` call
-- it on each address and identifier only while that is open, and close each at most once. If they
-- succeed, the connection's identifier stays open besides, and the socket's destructor closes it; if
-- they throw, nothing more is open than before.
pub connections-Leaves :
    (requested accepted modified found created connected modified' : Bool)
    → Leaves
        (accept requested accepted modified)
        (destroy_socket new_cm_id)
        (new_cm_id ∷ [])
        (cm_id ∷ [])
      × Leaves (connect found created connected modified') (destroy_socket cm_id) (cm_id ∷ []) []
connections-Leaves requested accepted modified found created connected modified' =
    (accept-Leaves requested accepted modified, connect-Leaves found created connected modified')

-- How an acceptor ends after a call of `listen`.
abbrev pub Ends : Action (Unit {0}) → Type 0
Ends (events, ok value) = replay (events ++ destroy_acceptor.0) [] [] ≡ some []
Ends (events, err e) = replay (events ++ destroy_acceptor.0) [] [] ≡ none

-- An acceptor whose `listen` succeeded has closed all that it opened when it is destroyed. If
-- `listen` throws, for whatever call that fails, the destructor closes an identifier that is not
-- open.
pub listen-Ends : (found created listening : Bool) → Ends (listen found created listening)
unfolding listen create_addr_info destroy_addr_info destroy_acceptor
listen-Ends false created listening = refl
listen-Ends true false listening = refl
listen-Ends true true false = refl
listen-Ends true true true = refl
