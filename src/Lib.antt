-- ===== src/Lib.antt =====
-- Large Scale Event Building: a simulated detector on every node fills a ring of events; a readout unit
-- groups them into multievents and sends each to one of the builder units, which receive the multievents of
-- all nodes, check that they are of the same event and give the memory back.
--
-- The parts and their files, with the functions they translate:
--
--   Buffer        common/utility.h, Buffer: a ring of slots with a read and a write pointer.
--   Range         common/range.h: distance_in_range, advance_in_range, find_in_range, accumulate_in_range.
--   DataFormat    common/dataformat.h: EventMetaData, EventHeader.
--   Generator     generator/generator.cpp: the constructor lays out the events of a whole ring (construct, with
--                 fill for its loop), generateEvents and releaseEvents move the ring's pointers.
--   Controller    ru/controller.cpp: read asks the generator for the events that are due, release frees them.
--   Accumulator   ru/accumulator.cpp: get_multievent (acquire, then take_multievent), checkDataWrap,
--                 release_multievents (mark_all, then releaseContiguousMemory).
--   PendingMap    std::map<void*, size_t> as transport/verbs/socket.cpp uses it.
--   Socket        transport/verbs/socket.cpp: register_memory, post_send, post_recv and the polls.
--   BuilderUnit   bu/builder_unit.cpp: connect (connect_all), read_data, check_data, release_data and a
--                 round of run (run_once: read_links, then build); iovec_length of common/utility.h.
--   ReadoutUnit   ru/readout_unit.cpp: a round of run (run_once: acquire_multievents, poll_connections,
--                 release_completed, send); create_sequence of common/utility.h; ReadoutUnit/Connecting is connect;
--                 ReadoutUnit/Serving is the state between two rounds, ReadoutUnit/Run a round as a whole.
--   Setup         main.cpp: the checks of the configuration (configure) and the sizes of the memories (allocate).
--   LengthGenerator  generator/length_generator.cpp: the constructor's bounds, and generate.
--   Libfabric     transport/libfabric/socket.cpp: the second implementation of the socket's interface.
--   MemoryPool    common/memory_pool.h: alloc and free; the constructor's loop (carve) has a round of fuel for
--                 each byte, and ends within it unless the pieces have no length.
--   Log           log/log.cpp: init, the sinks and their levels, and the destructor of a message (destroy);
--                 Log/Level is severity_from_string of common/utility.h.
--   Hydra         launcher/hydra_launcher.cpp, and the exchange of the addresses in main.cpp.
--   Endpoints     transport/endpoints.h: get_endpoints from the launcher, and from the configuration
--                 (configured_endpoints); the search for the node's own id in main.cpp (find_id).
--   Connection    transport/verbs/ and transport/libfabric/: listen, accept and connect of both transports, as the
--                 resources that they open, use and close (Connection/Verbs, Connection/Fabric); Connection/Ledger is
--                 what the libraries make of these calls: libfabric does not close what something is bound to.
--   Program       main.cpp: the objects that main builds from the configuration (build), and where its log goes
--                 (Program/Logging).
--   Timer         common/timer.h: the timer, with the clock's readings as arguments.
--   LocalIp       common/local_ip.h, and the choice of the interface in main.cpp (main_ip).
--   Prelude       size_t with its wrap-around, int, signed distances, results, tests and lists.
--   Tests         runs on small inputs.
--
-- The Accumulator calls the Controller, the Controller the Generator, and the Generator moves a Buffer. Their
-- state is described by counters that only grow (Buffer/Ring, Controller/Positions, Accumulator/Invariant): events
-- released and events generated, and multievents released and handed out.
--
-- A call that may fail gives a Result: a value, a failed assert, behaviour that C++ leaves undefined, or an
-- exception. A method that changes its object takes the state and gives the new one. A pointer into a ring is its
-- index in elements, and an address is a number of bytes; both are assumed below 2 ^ 62, so that sums of two
-- distances do not leave 64 bits. size_t and uint64_t wrap modulo 2 ^ 64. An int that the program only uses from 0
-- up is undefined from 2 ^ 31 on, except in iovec_length, where the conversion is written out. The generator's loop
-- runs on as much fuel as the ring has slots, and is shown to end within it.
--
-- What is not under this repository is a parameter: the number that the random distribution draws and Boost's clamp,
-- the events due by the clock, what the verbs library and libfabric answer to a post, a poll or a registration, the
-- core of Boost's log, the addresses that the C library finds, and the calls of PMI. Other parts are modelled without the messages that they log, the clocks
-- and the frequency meters. Not modelled: the PMI client under launcher/hydra-simple, a copy of MPICH's; the command line; the listing of the
-- devices in transport/verbs; the parameters of the calls that set a connection up.
pub mod Prelude
pub mod Buffer
pub mod Range
pub mod DataFormat
pub mod Generator
pub mod Controller
pub mod Accumulator
pub mod PendingMap
pub mod Socket
pub mod BuilderUnit
pub mod ReadoutUnit
pub mod Setup
pub mod Program
pub mod MemoryPool
pub mod Libfabric
pub mod LengthGenerator
pub mod Log
pub mod Hydra
pub mod Endpoints
pub mod Connection
pub mod Timer
pub mod LocalIp
pub mod Tests
