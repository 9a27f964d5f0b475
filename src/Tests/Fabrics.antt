-- ===== src/Tests/Fabrics.antt =====
-- Two calls on sockets of two credits with one region.
use lseb.Prelude.{◌≡◌, List, [], ◌∷◌, map}
use lseb.DataFormat.{Iovec}
use lseb.Socket
use lseb.Libfabric.{entries}
use lseb.Libfabric.Simulation.{
  Call, post_send, post_recv, poll_completed_send, fabric, fabric_result, calls_fabric, calls_verbs,
  calls-fabric,
}

abbrev piece : Iovec
piece = record { base = 100; len = 8 }

abbrev socket : Socket.Socket
socket = record {
  mrs = record { addr = 96; length = 32 } ∷ [];
  credits = 2;
  pending_send = [];
  pending_recv = [];
}

abbrev calls : List Call
calls =
    post_send piece 0
    ∷ post_recv (record { base = 0; len = 8 }) 0
    ∷ poll_completed_send (entries (100 ∷ []))
    ∷ []

calls-fabric_example :
    calls_fabric (fabric socket) calls
    ≡ (fabric (calls_verbs socket calls).0, map fabric_result (calls_verbs socket calls).1)
calls-fabric_example = calls-fabric socket calls
