-- ===== src/Lib.antt =====
-- TeAOMDV, a trust-enhanced multipath distance vector routing agent for the ns-2 simulator: a model of
-- teaomdv/*.cc and *.h in the build that the headers select (node-disjoint paths, packet salvaging,
-- expanding ring search; no link-layer detection).
--
-- The agent discovers routes by flooding a request (`sendRequest`, `recvRequest`), answers with replies
-- (`recvReply`), keeps up to three node-disjoint paths to a destination, buffers packets until a route
-- is up, and reports broken links (`handle_link_failure`, `recvError`). Data go on only through a next
-- hop whose trust reaches a threshold; the trust is computed from overheard packets, probes and
-- recommendations, and a path that is not trusted is reported by a PTA packet (`forward`, `recvPta`).
--
-- Files, with the code that they model:
--   Packet            teaomdv/teaomdv_packet.h: the headers, and the simulator's header fields in use
--   Entry             `teaomdv_rt_entry`, its paths and precursors (teaomdv/teaomdv_rtable.cc)
--                     Entry/Precursors, Entry/Choice, Entry/Nblist: its precursors, the choice of a path,
--                     its list of neighbours
--   Table             `teaomdv_rtable`
--   Queue             `teaomdv_rqueue` (teaomdv/teaomdv_rqueue.cc)
--   Queue/Linked      the same operations with the pointers of the code: a heap of packets linked by
--                     `next_`; Queue/Linked/Refines compares the two
--   Neighbor          `TEAOMDV_Neighbor` (the end of teaomdv/teaomdv_rtable.cc) with its trust value
--                     (Neighbor/Rating)
--   Agent/State       `class TEAOMDV` (teaomdv/teaomdv.h), its effects, the monad of its methods
--   Agent/Ids         `id_insert`, `id_lookup`, `id_get`, `id_purge`; Agent/Ids/Routes the lists of routes of an id
--   Agent/Send        `sendError`, `sendPta`, `sendReply`, `sendHello`, `sendRcom`, `sendProb`
--   Agent/Routes      `rt_down`, `handle_link_failure`, `recvError`
--   Agent/Neighbors   `nb_insert`, `recvHello`, `recvProb`, `recvRcom`
--   Agent/Forward     `forward`; Agent/Gate has the theorems on its check of trust,
--                     Agent/Gate/LastPath what is left of a route without another path
--   Agent/Request     `PerHopTime`, `sendRequest`; Agent/Request/Branches has its results, and
--                     Agent/Request/Ring follows its calls to their end
--   Agent/Resolve     `rt_resolve`, `rt_purge`; Agent/Resolve/Down follows a packet without a route,
--                     Agent/Resolve/Fault the loop over the waiting packets to where it stops
--   Agent/RecvRequest `recvRequest`: the reverse path; RecvRequest/Answer has what is done with the request,
--                     and Agent/Seqno the theorem on the number that it is answered with
--   Agent/RecvReply   `recvReply`
--   Agent/Pta         `recvPta`; Agent/Pta/Fault shows where it stops
--   Agent/Discovery   a request, its answer and what the node that asked learns from it;
--                     Discovery/Destination follows `recvRequest` at the destination,
--                     Discovery/Source `recvReply` at the source
--   Agent/Order       the rule by which requests and replies change a route
--   Agent/Trust       `tap`, `set_trust`; Agent/Trust/Batches follows the recommendations
--   Agent/Timers      `nb_delete`, `nb_purge`, the handlers of the timers, the command "start"
--   Agent/Receive     `recv`, `recvTEAOMDV`
--   Agent/Repair      `rt_ll_failed`, and `local_rt_repair` and `forwardReply`, which nothing calls
--   Agent/Command     `command`, with the simulator's answers as a parameter
--   Agent/Run         the events, and the states that an agent comes to
--   Agent/Invariant   the invariant of a run, with a module for each handler that keeps it
--   Agent/Budget      how many effects of a kind a handler may cause, with two uses over a run:
--   Agent/Flooding    how often a request is passed on
--   Agent/Conserved   what becomes of a data packet
--   Base, Tests       shared helpers; concrete inputs
--
-- A handler is a function from the agent's state to an `Outcome`: the new state, or the reason for
-- which the process stops (a failed assertion, a null or dangling pointer, a write outside an array,
-- `exit`). Packets that are sent, delivered, dropped or freed, and timers, are effects in the state. A
-- pointer is the key of its object (destination, address) and is looked up at each use. The type
-- `double` is a parameter with its operations; what the simulator provides (clock, random numbers,
-- fresh packets, the interface queue's filter, whether a target is set) and what the sources leave undefined (the macro INFINITY,
-- uninitialised fields) is the record `Env`. Numbers are naturals; unsigned header fields wrap at their
-- width.
--
-- Loops over lists are structural. The loops of `path_purge`, of the queue's `purge` and over the
-- waiting packets run on fuel, one more than the length of the list, which each round shortens; a loop
-- that ran out would stop with `no_fuel`. A walk along the links of the queue in memory has one more
-- than `len_` as its fuel.
--
-- Not modelled: the logs (teaomdv/teaomdv_logs.cc), which `verbose = 0` turns off, the print-outs
-- (`rt_dumptable`, `printPaths`), the destructors, and the code that the headers leave out of this build
-- (link-layer detection, link-disjoint paths).
pub mod Base
pub mod Packet
pub mod Entry
pub mod Table
pub mod Queue
pub mod Neighbor
pub mod Agent
pub mod Tests
