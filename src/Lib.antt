-- ===== src/Lib.antt =====
-- RunForge: the server's decisions about tools, spaces, plugins, deletions and running agents.
--
-- A tenant has spaces, a space has threads, a thread has runs. The server (server/src) admits a
-- run when the deletion gate lets its thread through, gives it an execution in the process, and calls
-- a model and tools step by step. Before a call of the model the messages are compacted, each tool call
-- passes the tool policy, and a goal holds the plan that the run reports. Spaces are managed by a
-- service that asks the store who the actor is, and deletes a space behind the deletion gate. The
-- plugins of a space are started in the order of their dependencies.
--
-- Base
--   What the modules share: lists measured by native numbers, texts as UTF-16 code units (`Text`),
--   whole strings with `trim` and `join`, untyped input (`Value`), results of calls that may throw
--   (`Result`), and the predicates of a result's or an option's value (`OnOk`, `OnSome`).
-- Deletion
--   Deletion.Gate is class DeletionGate of server/src/deletion/gate.ts. An object held by reference
--   has a key, and a promise is the Boolean that says whether it is resolved. Blocking has the calls
--   as events and `run`; Window and Drain have the proofs.
-- Tools
--   Tools.Policy is server/src/tools/policy.ts: `check`, `capOutput` and the tool table. node:path
--   and the matching of regular expressions are the record `Host`; the 70 per cent of `capOutput`,
--   a floating-point product, is a function `share` with `share n <= n`.
-- Agent
--   Agent.Goal is server/src/agent/goal.ts with packages/contracts/src/goal.ts. Agent.Execution is
--   server/src/agent/executionControl.ts: an execution is an object with a flag that says whether
--   the map holds it, and Runs has the calls as data. Agent.Compaction and its Window are
--   server/src/agent/compaction.ts over the messages of server/src/llm/types.ts, with JSON.stringify as
--   the record `Json`. The loop that looks for the end of a summary is recursion on a fuel that
--   starts at the end asked for, and each round makes the end smaller. Agent.Bus is class RunBus of
--   server/src/agent/bus.ts, without the handlers that subscribe to it.
-- Spaces
--   Spaces.Input, Merge and Access (with Changes) are server/src/spaces/access.ts; Rows has the rows of
--   server/src/store/types.ts and the record `Services`, the store and the configuration service,
--   which are given to the service. Each awaited call of a deletion may throw, and returns the store and
--   the gate, which other code may have changed during it. The writes of `create` and `update` do not
--   throw in the model. An error has its status and code.
-- Store
--   Store is class MemoryStore of server/src/store/memoryStore.ts, with the rows of
--   server/src/store/types.ts (Rows, Shells, State). A Map is a table (Base.Tables), a change through a
--   reference is a change of the table, and a new id and the time are arguments of an operation. Runs,
--   Threads, Steps, Shells, Tenants, Spaces and Users have the operations. Cancelling puts what a deletion
--   cancels against what it checks. Calls has those on threads and runs as data; Writes says how
--   each of them writes to the tables of threads and runs, and Slots and Foreign prove properties of all
--   calls from that. Slots.Board is what the store promises about executions, without its tables.
-- Plugins
--   Plugins.Graph is `resolvePluginGraph` of server/src/plugins/graph.ts. The depth-first visit is
--   recursion on a fuel of the number of plugins and one.
--
-- Not modelled: the promises' scheduling (a call of the model is one step, and sequences of calls stand for
-- the interleavings), the texts of messages and errors where only their kind matters, the estimates of
-- tokens, the queue of `mutateTenant`, the waiters of `waitForRunActivity`, the parser of goal patches,
-- the validation of a plugin's manifest, what of the store in memory sorts by dates
-- or reads the messages of a branch, its forks and updates of threads, subagent runs, push subscriptions
-- and system administrators, and the rest of the server: the executor, the store in PostgreSQL, the model
-- providers, the shell, the datasources, the external service and the HTTP interface.
pub mod Base
pub mod Deletion
pub mod Tools
pub mod Agent
pub mod Plugins
pub mod Spaces
pub mod Store
