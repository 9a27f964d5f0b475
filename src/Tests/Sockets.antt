-- ===== src/Tests/Sockets.antt =====
-- Posting and polling on a socket with one region of memory and two credits.
use lseb.Prelude.{arith, List, [], ◌∷◌}
use lseb.DataFormat.{Iovec}
use lseb.PendingMap.{PendingMap}
use lseb.Socket.{Socket, Completion, post_send, collect}
use lseb.Socket.Posting.{Posted, post_send-Posted}
use lseb.Socket.Polling.{Collected, collect-Collected}

abbrev socket : Socket
socket = record {
  mrs = record { addr = 64; length = 192 } ∷ [];
  credits = 2;
  pending_send = (64, 64) ∷ [];
  pending_recv = (128, 64) ∷ [];
}

abbrev piece : Iovec
piece = record { base = 192; len = 64 }

post_send-Posted_example :
    Posted socket
      (λ m. record socket { pending_send = m })
      socket.pending_send
      piece
      0
      (post_send socket piece 0)
post_send-Posted_example = post_send-Posted socket piece 0 (tt, tt)

abbrev completions : List Completion
completions = record { wr_id = 128; status = 0 } ∷ record { wr_id = 64; status = 5 } ∷ []

abbrev pending : PendingMap
pending = (64, 64) ∷ (128, 64) ∷ []

collect-Collected_example : Collected completions pending (collect completions pending)
collect-Collected_example = collect-Collected completions pending ((omega arith, tt), (tt, tt))
