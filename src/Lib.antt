-- ===== src/Lib.antt =====
-- A model of the Raft nodes of this repository, and theorems about them.
--
-- A cluster is a number of processes, each of which runs `raft_run` (src/raft.c) on one
-- `raft_node_t`. A node receives a packet or a timeout, runs one handler, and goes on. A handler
-- reads and writes the node, its log and its two persistent fields, sends packets to other nodes
-- and to clients, and adds rows to a telemetry file. Everything that a handler changes is in one
-- record, `RaftNode` (Raft/Node), so that a handler is a function from a node to a node:
--   * `node.log` is the list of entries, and `node.hard_state` the term and the vote, as
--     src/log.h and src/persistent-fields.h promise them (Store);
--   * `node.io` (Io) has the packets sent so far, in order, the rows of the telemetry file, and
--     the results that the clock and rand() will give;
--   * the other fields are those of `raft_node_t`, with lists for the arrays.
-- Output to the terminal is left out. A C function that is long is several definitions here, which
-- a comment says; the one with the C name is the whole function.
--
-- The files and what they model:
--   * Prelude: the native numbers, C's int and uint32_t with their conversions and wrap-around
--     (Prelude/Int), lists over native indices (Prelude/Lists), Boolean tests (Prelude/Tests).
--   * Memory: the words of src/util.h. LogEntry: src/log-entry.c. Transport: the packet of
--     src/transport.h. Rpc: src/rpc.c, with the structures of src/rpc.h in Rpc/Messages, the one
--     message of variable length in Rpc/AppendEntries, and the proofs in Rpc/RoundTrip and
--     Rpc/Bounds.
--   * Io, Timer: src/util-unix/util.c and src/raft-timer.h. Float, Accrual: src/accrual.c, the
--     failure detector; the arithmetic of double is a parameter, of which only monotonicity, as far as
--     IEEE 754 has it, is assumed, and only in one theorem.
--   * Persist: src/persist-unix. Persist/Disk has lseek, read, write and ftruncate on a file, any
--     call of which may fail; Persist/Log and Persist/Fields are log.c and persistent-fields.c on
--     it. Persist/Log/Implements and Persist/Fields/Refine compare these files with what Store says;
--     Persist/Log/Restart is about a crash.
--   * Raft: src/raft.h and src/raft.c. Node: the state, src/util-unix/raft-util.c and the helpers on
--     the log; Timers, Send, Roles: the timers, the packets, the changes of role; Apply: the state
--     machine; Append, Replicate, Vote, Client: the handlers; Dispatch: from a packet to its
--     handler, the timeouts and `raft_run`. Below each of these its proofs. Progress and Leadership
--     are about all handlers together, and about whole runs of the loop; Leadership/Safety is about the
--     runs of all nodes of a cluster.
--   * Socket: src/transport-socket/transport-socket.c, the transport that the programs use: the tables
--     of connections and the functions that change them. Socket/Stream: the loops that write and read
--     one packet; Socket/Send, Socket/Receive: `socket_send` and `socket_receive`. Socket/Active,
--     WellFormed, Route, Lost and Deliver are the proofs. What a system call gives is an argument.
--   * Pipe, Orchestrator: src/transport-pipe. Cstring: the functions on strings that the programs use.
--   * Client, Benchmark: src/util-unix/client.c and benchmark-client.c, over any transport, which is a
--     record of two functions (`TransportOps`). NodeProgram: src/util-unix/node.c, up to raft_run.
--   * Tests: the theorems at concrete inputs.
--
-- Loops are recursion on the entries or slots that are left, or on a number of rounds that the code
-- fixes before the loop: `apply_to_state_machine` tests its two indices before each round and has as
-- many rounds as the distance between them, which each round lowers by one; the commit loop has the
-- distance to the end of the log.
-- `raft_run` takes the list of what `transport.receive` returns, for as long as it is looked at.
-- Numbers keep their C types by `% 2 ^ 32` and the like where the code wraps around. Arithmetic on
-- int, whose overflow C leaves undefined, is that of the integers. A theorem that needs a log or a
-- term below 2^31 says so: from there on the code takes the value for an error.
--
-- A loop of the transport or of a program is recursion on the list of what the system calls of its
-- rounds give. The call after the last one listed ends the loop, as the comment at each says, so that
-- every run that ends is one of these; the scan of the active descriptors is recursion on the number
-- that is left of them, and the loop over the arguments runs `argc` times, which is enough.
--
-- Not modelled: the main function of the orchestrator, which makes pipes and processes; bind() and
-- listen(); the release of memory; pauses, signals and the output to the terminal. A packet is a list
-- of bytes in Socket and a structure elsewhere; how a structure lies in memory is left to the machine.
-- What the transport does is open: a packet may be lost, late, repeated or forged in what `raft_run`
-- receives; only Leadership/Safety asks more of it, of the votes.
pub mod Prelude
pub mod Memory
pub mod LogEntry
pub mod Transport
pub mod Rpc
pub mod Io
pub mod Timer
pub mod Float
pub mod Accrual
pub mod Persist
pub mod Store
pub mod Socket
pub mod Cstring
pub mod Client
pub mod Benchmark
pub mod NodeProgram
pub mod Pipe
pub mod Orchestrator
pub mod Raft
pub mod Tests
