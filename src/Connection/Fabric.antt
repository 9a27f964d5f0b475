-- ===== src/Connection/Fabric.antt =====
-- transport/libfabric/: shared.cpp, acceptor.cpp, connector.cpp and domain.cpp.
use lseb.Prelude.{◌&&◌, Bool, true, false, Exception, LibraryCall, if◌then◌else◌, ok, [], ◌∷◌}
use lseb.Connection.{
  Action, Handle, hints, info, request_info, fabric, domain, pep, pep_eq, ep, rx_cq, tx_cq, eq,
  close, check, open_handle, bind_handle, own, hold, on_error, opened, throw, done, ◌>>◌,
}

-- What `fi_eq_sread` answers: an event, which is the expected one or not; an error whose entry can be read or not; or
-- another error.
pub data EventRead : Type 0 where
  event : Bool → EventRead
  available_error : Bool → EventRead
  failed : EventRead

unfoldable pub read_event : Handle → EventRead → Action (Unit {0})
read_event q (event true) = check (q ∷ []) true LibraryCall.fi_eq_sread
read_event q (event false) = do
  check (q ∷ []) true LibraryCall.fi_eq_sread
  throw Exception.unexpected_event
read_event q (available_error true) = do
  check (q ∷ q ∷ []) true LibraryCall.fi_eq_readerr
  check (q ∷ []) false LibraryCall.fi_eq_sread
read_event q (available_error false) = check (q ∷ q ∷ []) false LibraryCall.fi_eq_readerr
read_event q failed = check (q ∷ []) false LibraryCall.fi_eq_sread

pub record QueueAnswers : Type 0 where
  pub rx_opened : Bool
  pub tx_opened : Bool
  pub rx_bound : Bool
  pub tx_bound : Bool
  pub eq_opened : Bool
  pub eq_bound : Bool

-- The queues are put into pointers of the caller: `rest` is what the caller does from there on.
unfoldable pub bind_completion_queues : QueueAnswers → Action (Unit {0}) → Action (Unit {0})
bind_completion_queues a rest = do
  open_handle (domain ∷ []) rx_cq a.rx_opened LibraryCall.fi_cq_open
  own rx_cq (do
    open_handle (domain ∷ []) tx_cq a.tx_opened LibraryCall.fi_cq_open
    own tx_cq (do
      bind_handle ep rx_cq a.rx_bound LibraryCall.fi_ep_bind
      bind_handle ep tx_cq a.tx_bound LibraryCall.fi_ep_bind
      rest))

-- The caller never releases this pointer, so the queue's deleter runs at the end of its scope.
unfoldable pub bind_event_queue : QueueAnswers → Action (Unit {0}) → Action (Unit {0})
bind_event_queue a rest = do
  open_handle (fabric ∷ []) eq a.eq_opened LibraryCall.fi_eq_open
  hold eq (do bind_handle ep eq a.eq_bound LibraryCall.fi_ep_bind; rest)

pub record AcceptAnswers : Type 0 where
  pub request : EventRead
  pub endpoint : Bool
  pub queues : QueueAnswers
  pub accepted : Bool
  pub connected : EventRead

-- A request comes with its own `fi_info`. Endpoint and completion queues are released to the socket.
unfoldable pub accept : AcceptAnswers → Action (Unit {0})
accept a = do
  read_event pep_eq a.request
  open_handle [] request_info true LibraryCall.fi_eq_sread
  hold request_info (open_handle (domain ∷ request_info ∷ []) ep a.endpoint LibraryCall.fi_endpoint)
  own ep (
      bind_completion_queues a.queues (
        bind_event_queue a.queues
          (do check (ep ∷ []) a.accepted LibraryCall.fi_accept; read_event eq a.connected)))

pub record ConnectAnswers : Type 0 where
  pub found : Bool
  pub endpoint : Bool
  pub queues : QueueAnswers
  pub connecting : Bool
  pub connected : EventRead

unfoldable pub connect : ConnectAnswers → Action (Unit {0})
connect a = do
  open_handle (hints ∷ []) info a.found LibraryCall.fi_getinfo
  hold info (do
    open_handle (domain ∷ info ∷ []) ep a.endpoint LibraryCall.fi_endpoint
    own ep (
        bind_completion_queues a.queues (
          bind_event_queue a.queues (do
            check (ep ∷ info ∷ []) a.connecting LibraryCall.fi_connect
            read_event eq a.connected))))

-- The implicit destructor of the socket: its members, the last one first.
unfoldable pub destroy_socket : Action (Unit {0})
destroy_socket = do close tx_cq; close rx_cq; close ep

-- Whether the acceptor's pointers are set.
pub record Acceptor : Type 0 where
  pub has_pep : Bool
  pub has_pep_eq : Bool

pub record ListenAnswers : Type 0 where
  pub found : Bool
  pub passive_ep : Bool
  pub eq_opened : Bool
  pub pep_bound : Bool
  pub listening : Bool

-- The calls of `listen`, and what they leave in the acceptor's pointers.
unfoldable pub listen_calls : ListenAnswers → Action (Unit {0})
listen_calls a = do
  open_handle (hints ∷ []) info a.found LibraryCall.fi_getinfo
  hold info (do
    open_handle (fabric ∷ info ∷ []) pep a.passive_ep LibraryCall.fi_passive_ep
    open_handle (fabric ∷ []) pep_eq a.eq_opened LibraryCall.fi_eq_open
    bind_handle pep pep_eq a.pep_bound LibraryCall.fi_pep_bind
    check (pep ∷ []) a.listening LibraryCall.fi_listen)

unfoldable pub listen : Acceptor → ListenAnswers → Acceptor × Action (Unit {0})
listen s a = if s.has_pep then (s, done tt) else (
  elim a.found [
    | false ↦ s
    | true ↦ elim a.passive_ep [
      | false ↦ s
      | true ↦ record { has_pep = true; has_pep_eq = if a.eq_opened then true else s.has_pep_eq }
    ]
  ],
  listen_calls a,
)

close_if : Bool → Handle → Action (Unit {0})
close_if true h = close h
close_if false h = done tt

-- The implicit destructor of the acceptor.
unfoldable pub destroy_acceptor : Acceptor → Action (Unit {0})
unfolding close_if
destroy_acceptor s = do close_if s.has_pep_eq pep_eq; close_if s.has_pep pep

pub record DomainAnswers : Type 0 where
  pub found : Bool
  pub fabric_opened : Bool
  pub domain_opened : Bool

-- Whether a call gives a handle, without a look at its error code.
assign : Handle → Bool → Action (Unit {0})
assign h true = (opened h ∷ [], ok tt)
assign h false = done tt

-- The constructor. The pointer to the `fi_info` is set before the error code of `fi_getinfo` is looked at; the members
-- that are set are destroyed if it throws, the last one first.
unfoldable pub create_domain : DomainAnswers → Action (Unit {0})
unfolding assign close_if
create_domain a =
    on_error
      (do
        assign hints true
        assign info a.found
        hold info (do
          check (hints ∷ []) a.found LibraryCall.fi_getinfo
          open_handle (info ∷ []) fabric a.fabric_opened LibraryCall.fi_fabric
          open_handle (fabric ∷ info ∷ []) domain a.domain_opened LibraryCall.fi_domain))
      (do close hints; close_if (a.found && a.fabric_opened) fabric)

-- The implicit destructor of the domain.
unfoldable pub destroy_domain : Action (Unit {0})
destroy_domain = do close hints; close domain; close fabric
