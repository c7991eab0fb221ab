-- ===== src/Lib.antt =====
-- openDSU: dynamic software updating for servers, by a preloaded C library.
--
-- A new version of a program starts beside the running one and takes its listening sockets over. The
-- library wraps the system calls on sockets. For each socket of the program it keeps a shadow data
-- structure: the user's descriptor stands for a shadow descriptor, which may be inherited from the
-- running version over a Unix socket. Processes of all versions share an array `status` per port, in
-- shared memory under a semaphore: the group and number of the newest version, and how many processes
-- are answering requests. The event handlers (select, poll, epoll) follow the status, answer requests
-- of new versions behind the program's back, and end a version that is no longer needed.
--
-- Which file models which part (paths from the repository's root):
-- - Os: what the library calls and does not contain, the system calls, semaphores and shared memory.
--   It is a parameter `os`, a record of functions on a type `World`, so that a theorem holds whatever
--   the calls answer and whatever other processes do during a call. `IsMemory` and `IsQuiet` are the
--   hypotheses that shared memory behaves as memory does and that nobody interferes.
-- - State: src/state.c and src/state.h. A linked list is a list, a returned pointer is the test that
--   found the node. State.Pointers has the nodes in memory with their pointers, and the loops of
--   src/state.c over them, which State.Moves (by State.Chains, State.Unlink and State.Used) and
--   State.Found relate to the lists. The lists of internal connections have the same loops. State.Shadow,
--   State.Transfer and State.Connections hold theorems on the lists.
-- - Core: the protocol of src/core.c (dsu_monitor_fd, dsu_termination_detection, dsu_terminate,
--   dsu_activate_process, dsu_configure_process, dsu_initialize_event). Core.Monitor specifies one step
--   on the status (`observe`), Core.Terminate and Core.Event say when a process ends.
-- - Protocol: the processes that share a port, as a list that takes such steps one at a time, and in
--   Protocol.Interleave as a relation in which they take them in any order, inherit, fork and end.
--   Protocol.Runs has the code itself run by such processes in one world, and Protocol.Refines takes it
--   to that relation. In Protocol.Schedule the order is a list of turns.
-- - Workers: the processes of one version, which count themselves in shared memory, in any order.
-- - Start: dsu_init of src/core.c, the constructor. The C library's functions that it looks up are the
--   fields of `os`.
-- - Bind: bind, dsu_monitor_init and dsu_inherit_fd of src/core.c. Bind.Locks and Bind.Semaphores are
--   about the semaphores that it opens, and Bind.Inherit has both sides of an inheritance, with the
--   messages of Messages.Channel between them.
-- - Calls: socket, accept, accept4 and close of src/core.c. Calls.Roles counts in how many roles the
--   state knows a descriptor.
-- - Wrappers: the other wrapped calls of src/core.c and src/utils.c.
-- - Messages: src/communication.c, and the answer to a request, which the three event handlers repeat.
-- - Epoll: src/event_handlers/epoll.c (Epoll.Handlers has the handlers and the calls; Epoll.Interest,
--   Epoll.Restored and Epoll.Around are about what the kernel watches). Select:
--   src/event_handlers/select.c (Select.Loop has `select` itself, Select.Told and Select.Answer are
--   about its answer). Poll: src/event_handlers/poll.c (Poll.Handlers has the handlers and the calls).
--   Core.Locks is the lock on a descriptor, which each has: the semaphore that a process holds, and
--   what the shadow data structure notes of it.
-- - Descriptors: all wrapped calls together. `HasDescriptors` is the hypothesis on the kernel's table of
--   open descriptors, Descriptors.Reach the states that a process reaches by any calls from dsu_init
--   on. The children follow each handler (Events, Handling for select and epoll, Polling) and each call
--   (Binding, Exclusive) and show what Descriptors.Reachable collects.
-- - Launcher: src/exec.c.
-- - Examples: a small world, and each theorem at concrete values in it.
--
-- How the code is modelled. An `int` is its bit pattern, a number below 2^32; comparisons are on the
-- signed value and increments wrap around. A function that calls the system is a function from the
-- world to its result and the next world; one that changes a socket gives the new socket. A call that
-- may end the process gives a `Run`. Processes take their steps on a status one at a time, which is
-- what its semaphore is for. Memory that the code reads before it writes it is an argument.
-- The loops of dsu_epoll_correct_events and dsu_compress_fds run on the number of entries left, which
-- goes down in every round; a position outside of an array gives `none`. The recursive call of select
-- runs on fuel: one round is enough where there is a timeout, and without one it may wait for ever.
--
-- Not modelled: debug output, with the log file of a debug build; the signal handlers, which are
-- inside a comment of src/core.c; dsu_open, which no wrapper uses; a `malloc` that fails, which the
-- code does not look for; the tests and the benchmark. A program that changes the library's
-- descriptors by other means, and two threads of one process that use the shadow data structure at
-- once, are outside of the model.
pub mod Prelude
pub mod Os
pub mod State
pub mod Core
pub mod Calls
pub mod Wrappers
pub mod Messages
pub mod Epoll
pub mod Select
pub mod Poll
pub mod Bind
pub mod Protocol
pub mod Launcher
pub mod Start
pub mod Workers
pub mod Descriptors
mod Examples
