-- ===== src/Connection/Verbs.antt =====
-- transport/verbs/acceptor.cpp and connector.cpp.
use lseb.Prelude.{Bool, true, false, Exception, LibraryCall, [], ◌∷◌}
use lseb.Connection.{
  Action, Handle, addr_info, cm_id, new_cm_id, close, check, open_handle, throw, done, ◌>>=◌, ◌>>◌,
}

unfoldable pub create_addr_info : Bool → Action (Unit {0})
create_addr_info found = open_handle [] addr_info found LibraryCall.rdma_getaddrinfo

unfoldable pub destroy_addr_info : Action (Unit {0})
destroy_addr_info = close addr_info

-- `rdma_create_ep` reads the address, which is freed whether the call succeeded or not.
create_ep : Handle → Bool → Action Bool
create_ep h true = do
  open_handle (addr_info ∷ []) h true LibraryCall.rdma_create_ep
  destroy_addr_info
  done true
create_ep h false = do
  check (addr_info ∷ []) true LibraryCall.rdma_create_ep
  destroy_addr_info
  done false

-- A call on a new connection, whose identifier is destroyed if the call fails.
or_destroy : Handle → Bool → LibraryCall → Action (Unit {0})
or_destroy h true call = check (h ∷ []) true call
or_destroy h false call = do check (h ∷ []) true call; close h; throw (Exception.call_failed call)

started : Bool → Bool → Action (Unit {0})
unfolding or_destroy
started true listening = or_destroy cm_id listening LibraryCall.rdma_listen
started false listening = do close cm_id; throw (Exception.call_failed LibraryCall.rdma_create_ep)

-- The listening socket's identifier is destroyed where a call fails.
unfoldable pub listen : Bool → Bool → Bool → Action (Unit {0})
unfolding create_ep started
listen found created listening = do
  create_addr_info found
  made ← create_ep cm_id created
  started made listening

-- `~Acceptor`
unfoldable pub destroy_acceptor : Action (Unit {0})
destroy_acceptor = close cm_id

-- A request comes on the listening identifier; the new one is handed to the socket.
unfoldable pub accept : Bool → Bool → Bool → Action (Unit {0})
unfolding or_destroy
accept requested accepted modified = do
  open_handle (cm_id ∷ []) new_cm_id requested LibraryCall.rdma_get_request
  or_destroy new_cm_id accepted LibraryCall.rdma_accept
  or_destroy new_cm_id modified LibraryCall.ibv_modify_qp

connected_ep : Bool → Bool → Bool → Action (Unit {0})
unfolding or_destroy
connected_ep false connected modified = throw (Exception.call_failed LibraryCall.rdma_create_ep)
connected_ep true connected modified = do
  or_destroy cm_id connected LibraryCall.rdma_connect
  or_destroy cm_id modified LibraryCall.ibv_modify_qp

unfoldable pub connect : Bool → Bool → Bool → Bool → Action (Unit {0})
unfolding create_ep connected_ep
connect found created connected modified = do
  create_addr_info found
  made ← create_ep cm_id created
  connected_ep made connected modified

-- `~Socket`, without the memory regions.
unfoldable pub destroy_socket : Handle → Action (Unit {0})
destroy_socket h = close h
