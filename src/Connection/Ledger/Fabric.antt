-- ===== src/Connection/Ledger/Fabric.antt =====
-- The connections over libfabric.
use lseb.Prelude.{◌≡◌, refl, Bool, true, false, ok, err, none, some, List, [], ◌∷◌, ◌++◌}
use lseb.Connection.{Action, Handle, domain, fabric, hints, pep, pep_eq, ep, rx_cq, tx_cq, eq}
use lseb.Connection.Ledger.{replay, bound_queues, Leaves}
use lseb.Connection.Fabric.{
  EventRead, event, available_error, failed, read_event, QueueAnswers, AcceptAnswers,
  ConnectAnswers, accept, connect, bind_completion_queues, bind_event_queue, destroy_socket,
  create_domain, destroy_domain,
}

-- With the handles of `live` open before: a connection that succeeds leaves the endpoint and its three queues open as
-- well, of which the socket's destructor closes only the endpoint. One that throws leaves the queues open to which the
-- endpoint was bound until then, and no other.
abbrev pub Outcome : Action (Unit {0}) → List Handle → Type 0
Outcome (events, ok value) live =
    (replay events [] live ≡ some (eq ∷ tx_cq ∷ rx_cq ∷ ep ∷ live))
    × (replay (events ++ destroy_socket.0) [] live ≡ some (eq ∷ tx_cq ∷ rx_cq ∷ live))
Outcome (events, err e) live = replay events [] live ≡ some (bound_queues events live)

-- What the domain has open, and an acceptor that listens.
abbrev pub domain_handles : List Handle
domain_handles = domain ∷ fabric ∷ hints ∷ []

abbrev pub acceptor_handles : List Handle
acceptor_handles = pep_eq ∷ pep ∷ domain_handles

module _ (rx_opened tx_opened rx_bound tx_bound eq_opened eq_bound : Bool) where
  abbrev queues : QueueAnswers
  queues = record {
    rx_opened = rx_opened;
    tx_opened = tx_opened;
    rx_bound = rx_bound;
    tx_bound = tx_bound;
    eq_opened = eq_opened;
    eq_bound = eq_bound;
  }

accept_cases :
    (request : EventRead)
    (endpoint rx_opened tx_opened rx_bound tx_bound eq_opened eq_bound accepted : Bool)
    (connected : EventRead)
    → Outcome
        (accept (record {
          request = request;
          endpoint = endpoint;
          queues = queues rx_opened tx_opened rx_bound tx_bound eq_opened eq_bound;
          accepted = accepted;
          connected = connected;
        }))
        acceptor_handles
unfolding accept read_event bind_completion_queues bind_event_queue destroy_socket
accept_cases (event false) b0 b1 b2 b3 b4 b5 b6 b7 last = refl
accept_cases (available_error true) b0 b1 b2 b3 b4 b5 b6 b7 last = refl
accept_cases (available_error false) b0 b1 b2 b3 b4 b5 b6 b7 last = refl
accept_cases failed b0 b1 b2 b3 b4 b5 b6 b7 last = refl
accept_cases (event true) false b1 b2 b3 b4 b5 b6 b7 last = refl
accept_cases (event true) true false b2 b3 b4 b5 b6 b7 last = refl
accept_cases (event true) true true false b3 b4 b5 b6 b7 last = refl
accept_cases (event true) true true true false b4 b5 b6 b7 last = refl
accept_cases (event true) true true true true false b5 b6 b7 last = refl
accept_cases (event true) true true true true true false b6 b7 last = refl
accept_cases (event true) true true true true true true false b7 last = refl
accept_cases (event true) true true true true true true true false last = refl
accept_cases (event true) true true true true true true true true (event false) = refl
accept_cases (event true) true true true true true true true true (available_error true) = refl
accept_cases (event true) true true true true true true true true (available_error false) = refl
accept_cases (event true) true true true true true true true true failed = refl
accept_cases (event true) true true true true true true true true (event true) = (refl, refl)

connect_cases :
    (found endpoint rx_opened tx_opened rx_bound tx_bound eq_opened eq_bound connecting : Bool)
    (connected : EventRead)
    → Outcome
        (connect (record {
          found = found;
          endpoint = endpoint;
          queues = queues rx_opened tx_opened rx_bound tx_bound eq_opened eq_bound;
          connecting = connecting;
          connected = connected;
        }))
        domain_handles
unfolding connect read_event bind_completion_queues bind_event_queue destroy_socket
connect_cases false b0 b1 b2 b3 b4 b5 b6 b7 last = refl
connect_cases true false b1 b2 b3 b4 b5 b6 b7 last = refl
connect_cases true true false b2 b3 b4 b5 b6 b7 last = refl
connect_cases true true true false b3 b4 b5 b6 b7 last = refl
connect_cases true true true true false b4 b5 b6 b7 last = refl
connect_cases true true true true true false b5 b6 b7 last = refl
connect_cases true true true true true true false b6 b7 last = refl
connect_cases true true true true true true true false b7 last = refl
connect_cases true true true true true true true true false last = refl
connect_cases true true true true true true true true true (event false) = refl
connect_cases true true true true true true true true true (available_error true) = refl
connect_cases true true true true true true true true true (available_error false) = refl
connect_cases true true true true true true true true true failed = refl
connect_cases true true true true true true true true true (event true) = (refl, refl)

-- Whatever the library answers, `accept`, on an acceptor that listens, and `connect` call it on each
-- resource only while that is open. Since the library refuses to close a queue to which an endpoint
-- is bound, and the deleters do not look at its answer: if they throw, exactly the queues to which
-- the endpoint was bound until then stay open, and all else that they opened is closed; if they
-- succeed, the endpoint and its three queues stay open, and the socket's destructor closes the
-- endpoint only.
pub connections-Outcome :
    (a : AcceptAnswers) (c : ConnectAnswers)
    → Outcome (accept a) acceptor_handles × Outcome (connect c) domain_handles
connections-Outcome a c = (
  accept_cases a.request a.endpoint a.queues.rx_opened a.queues.tx_opened a.queues.rx_bound
      a.queues.tx_bound a.queues.eq_opened a.queues.eq_bound a.accepted a.connected,
  connect_cases c.found c.endpoint c.queues.rx_opened c.queues.tx_opened c.queues.rx_bound
      c.queues.tx_bound c.queues.eq_opened c.queues.eq_bound c.connecting c.connected,
)

domain_cases :
    (fabric_opened domain_opened : Bool)
    → Leaves
        (create_domain
          (record { found = true; fabric_opened = fabric_opened; domain_opened = domain_opened }))
        destroy_domain
        domain_handles
        []
unfolding create_domain destroy_domain
domain_cases false domain_opened = refl
domain_cases true false = refl
domain_cases true true = (refl, refl)

-- Without an `fi_info` the constructor of the domain frees one that it never got.
domain_without_info :
    (fabric_opened domain_opened : Bool)
    → replay
        (create_domain (record {
          found = false;
          fabric_opened = fabric_opened;
          domain_opened = domain_opened;
        })).0
        []
        []
      ≡ none
unfolding create_domain
domain_without_info fabric_opened domain_opened = refl
