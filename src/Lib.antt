-- ===== src/Lib.antt =====
-- A model of the crate `codex-runtime` (crates/codex-runtime), the runtime that drives a Codex
-- app-server: it projects the server's events into a state, serves sessions of tenants over the web,
-- applies patches to documents, and automates prompts.
--
-- The parts, and the files that model them:
--   * Json: the JSON library as an interface, a record of operations with the laws that the crate
--     relies on. Everything that reads payloads takes it as a parameter.
--   * Checked: Rust's `Result` with its `?`.
--   * Events, Id: the event envelope and the notifications that are extracted from it
--     (runtime/events.rs), and the parsers of ids (runtime/id.rs).
--   * RpcContract: runtime/rpc_contract.rs. RpcContract has the method names, RpcContract.Descriptors
--     the catalog of contracts, RpcContract.Validate the validation of requests and responses, and
--     RpcContract.Accepted what the protocol asks of them, stated without the order of the checks.
--   * Policy: the sandbox policies of runtime/api/types/policies.rs, and the check of privileged
--     sandboxes of runtime/api/wire.rs.
--   * Prompt: `build_prompt_inputs` of runtime/api/wire.rs, on the UTF-8 bytes of the text.
--   * Hooks: runtime/hooks.rs with the types of plugin/mod.rs: the merging, registration and scoping of
--     hooks, and the run of an approval's hooks. A hook is its name and what its call gives.
--     Hooks.Merged finds hooks by name, Hooks.Firsts is the first hook of each name, and Hooks.Ordered
--     compares the merges with it.
--   * Core: the core of the runtime, runtime/core with runtime/rpc.rs and runtime/approvals.rs.
--     Core.Metadata classifies a message, Core.Payloads has the payloads of answers and the routes,
--     Core.ServerRequests queues, expires and answers server requests, Core.Dispatch is the body of the
--     dispatcher's loop, and Core.Calls a client's call, cut where it waits. Core.Accounted runs server
--     requests in any order, Core.Waiting calls, and Core.Sequence the messages of a transport.
--     Core.Validated puts the contracts on both sides of a call, and Core.Supervisor is the loop that
--     restarts a connection, one round for one element of a list. The
--     decision of the pre-tool-use hooks, the approval ids and the clock are arguments.
--   * Turn: runtime/turn_output.rs and runtime/turn_lifecycle.rs. Turn.Output collects the text of a
--     turn, and Turn.Lifecycle is the loop that waits for its end; one round is one element of a list:
--     the clock, what `recv` gave, and the answer of the lag probe.
--   * State: runtime/state.rs. State.Append has `append_capped` over UTF-8 bytes, State.Prune the
--     retention limits, State.Reduce the reducer with a function for each handler. The parameter
--     SelectNth is `select_nth_unstable_by_key` with its documented contract: a permutation, whose
--     first part is no later than the rest. State.Within is the invariant on the sizes.
--   * Artifact: domain/artifact. Artifact.Patch has `validate_doc_patch` and `apply_doc_patch` of
--     models.rs, with the digest as a parameter and `none` for a panic of `splice`;
--     Artifact.LockPolicy has the decision of lock_policy.rs.
--   * Web: adapters/web. Web.Registry has the operations of state.rs, each one what runs under one
--     acquisition of the lock, and Web.Registry.Dropped what is gone with a session; Web.Approvals has
--     the routing, queueing and answering of approvals, and Web.Sessions the creation and closing of
--     sessions and the start of turns, of handlers.rs and wire.rs. The adapter is a record of the
--     answers that its calls get, the broadcast channels are an abstract type. Web.Approvals.Reach puts
--     the lock regions of concurrent requests in any order.
--   * Automation: automation.rs. Automation.Schedule has the due times, Automation.Loop the loop cut
--     at its waits and locks, Automation.Steps any interleaving with the parts of `stop`, with the
--     invariants in Automation.Reached, and Automation.Stopped what a stop brings about.
--   * Prelude: shared lists, dictionaries, tests and texts. Tests: concrete inputs.
--
-- All paths are below crates/codex-runtime/src. Maps are association lists that are read by key only.
-- Numbers are natural numbers: sequence numbers, line counts and sizes are only compared, added to
-- within the length of a text, or subtracted behind a test; the counters that saturate, and the
-- checked arithmetic on `u64` and `u128`, are written out; the counters of the core wrap at 2^64. Only
-- the decimal text of a `u64` takes fuel, 20, the number of digits of the largest `u64`; every other
-- function recurses on its input. Between two waits an operation of the core is one step.
--
-- Not modelled: the transport, the tasks that a connection's generation spawns and joins, the result
-- and the teardown of its handshake, the prompt runs, the shell hooks and the other phases of hooks,
-- the client facade, the artifact store and its tasks, the sinks and the metrics other than the two
-- counts of pending entries, which do I/O or wait for a later model. The wake-up that `stop` sends to
-- a sleeping automation is left out: it may wake at any time. `close_session` awaits the archiving
-- with the registry as it is; the requests that come in between are in Web.Approvals.Reach. Log
-- messages are left out, and a formatted error is a value that keeps what is formatted.
pub mod Prelude
pub mod Checked
pub mod Json
pub mod RpcContract
pub mod Events
pub mod Id
pub mod State
pub mod Turn
pub mod Core
pub mod Artifact
pub mod Web
pub mod Policy
pub mod Prompt
pub mod Hooks
pub mod Automation
pub mod Tests
