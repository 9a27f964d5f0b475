-- ===== src/ReadoutUnit/Connecting.antt =====
-- `ReadoutUnit::connect`: a connection to each builder unit, tried again until it stands.
use lseb.Prelude.{
  ℕ, Bool, true, false, Result, ok, err, assert_failed, ◌>>=◌, ltb, ◌==◌, if◌then◌else◌, List, [],
  ◌∷◌, Option, none, some,
}
use mathlib.Core.Option
use lseb.Socket.{Socket, create, register_memory}
use lseb.ReadoutUnit.{create_sequence}

-- The map of the connections by the node's number.
abbrev pub Connections : Type 0
Connections = List (ℕ × Socket)

-- `std::map::emplace`; `none` if the key is there already.
unfoldable pub emplace : ℕ → Socket → Connections → Option Connections
emplace id conn [] = some ((id, conn) ∷ [])
emplace id conn ((j, c) ∷ conns) =
    if j == id
    then none
    else if ltb id j
    then some ((id, conn) ∷ (j, c) ∷ conns)
    else Option.map (λ r. (j, c) ∷ r) (emplace id conn conns)

-- What a try comes to: the connector throws; or it connects, and the registration of the memory succeeds or not.
pub data Attempt : Type 0 where
  refused : Attempt
  connected : Bool → Attempt

-- One node's loop, for a list of tries; the flag says whether one of them ended it. A registration that throws leaves the new
-- connection in the map.
unfoldable pub connect_node :
    ℕ → ℕ → ℕ → ℕ → List Attempt → Connections → Result (Connections × Bool)
connect_node credits buffer size id [] conns = ok (conns, false)
connect_node credits buffer size id (refused ∷ attempts) conns =
    connect_node credits buffer size id attempts conns
connect_node credits buffer size id (connected registered ∷ attempts) conns =
    let conn = create credits in
    let (conn', r) = register_memory conn buffer size registered in
    elim (emplace id conn' conns) [
      | none ↦ err assert_failed
      | some conns' ↦ elim r [
        | ok done ↦ ok (conns', true)
        | err e ↦ connect_node credits buffer size id attempts conns'
      ]
    ]

-- The loop over the nodes, up to the first that has not connected yet.
unfoldable pub connect_nodes :
    ℕ → ℕ → ℕ → List ℕ → (ℕ → List Attempt) → Connections → Result (Connections × Bool)
connect_nodes credits buffer size [] attempts conns = ok (conns, true)
connect_nodes credits buffer size (id ∷ ids) attempts conns = do
  (conns', done) ← connect_node credits buffer size id (attempts id) conns
  if done then connect_nodes credits buffer size ids attempts conns' else ok (conns', false)

unfoldable pub connect : ℕ → ℕ → ℕ → ℕ → ℕ → (ℕ → List Attempt) → Result (Connections × Bool)
connect credits buffer size id nodes attempts = do
  id_sequence ← create_sequence id nodes
  connect_nodes credits buffer size id_sequence attempts []
