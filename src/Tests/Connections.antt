-- ===== src/Tests/Connections.antt =====
-- Connections of both transports, and a readout unit that connects to three builder units.
use lseb.Prelude.{◌≡◌, arith, true, false, ok, [], ◌∷◌}
use lseb.Connection.{new_cm_id, cm_id}
use lseb.Connection.Verbs
use lseb.Connection.Fabric
use lseb.Connection.Fabric.{AcceptAnswers, ConnectAnswers, QueueAnswers, event, failed}
use lseb.Connection.Ledger.{Leaves}
use lseb.Connection.Ledger.Verbs.{Ends, connections-Leaves, listen-Ends}
use lseb.Connection.Ledger.Fabric.{Outcome, acceptor_handles, domain_handles, connections-Outcome}
use lseb.ReadoutUnit.Connecting.{connect, connected, refused}
use lseb.ReadoutUnit.Rows.{all_from}
use lseb.ReadoutUnit.Retries.{tries, ready, connect-ready}

-- A request that is accepted, and a connection that is refused.
connections-Leaves_example :
    Leaves
      (Verbs.accept true true true)
      (Verbs.destroy_socket new_cm_id)
      (new_cm_id ∷ [])
      (cm_id ∷ [])
    × Leaves (Verbs.connect true true false true) (Verbs.destroy_socket cm_id) (cm_id ∷ []) []
connections-Leaves_example = connections-Leaves true true true true true false true

listen-Ends_example : Ends (Verbs.listen true true false)
listen-Ends_example = listen-Ends true true false

abbrev queues : QueueAnswers
queues = record {
  rx_opened = true;
  tx_opened = true;
  rx_bound = true;
  tx_bound = true;
  eq_opened = true;
  eq_bound = true;
}

abbrev accepting : AcceptAnswers
accepting = record {
  request = event true;
  endpoint = true;
  queues = queues;
  accepted = true;
  connected = event true;
}

-- The peer refuses.
abbrev connecting : ConnectAnswers
connecting = record {
  found = true;
  endpoint = true;
  queues = queues;
  connecting = true;
  connected = failed;
}

connections-Outcome_example :
    Outcome (Fabric.accept accepting) acceptor_handles
    × Outcome (Fabric.connect connecting) domain_handles
connections-Outcome_example = connections-Outcome accepting connecting

connect-ready_example :
    connect 2 4096 960 1 3 (λ node. tries node (connected true) (refused ∷ []))
    ≡ ok (all_from (ready 2 4096 960) 0 3, true)
connect-ready_example =
    connect-ready 2 4096 960 1 3 (λ node. node) (λ node. refused ∷ []) (omega arith)
