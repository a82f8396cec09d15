-- ===== src/Lib.antt =====
-- A model of the Autopilot control plane, src/data/delivery-system: the core that decides which work
-- runs, when, on which provider, and what the owner grants.
--
-- The supervisor queue (src/data/delivery-system/supervisorQueue.ts, class SupervisorQueue) is the
-- durable life cycle of governed handoffs. Supervisor/Task holds its data, errors and the state
-- passing that its methods share: a method is a function from the tasks in memory to a result or an
-- error and the tasks it leaves, so what was published before an exception stays published.
-- Supervisor/Cycle is hasDependencyCycle, Supervisor/Valid is isSupervisorState and what it calls,
-- Supervisor/Store is publish, require, replace and transition, Supervisor/Enqueue is enqueue and
-- approve, Supervisor/Run is fail, retry, complete and cancel, Supervisor/Claim is reconcile,
-- recover, peekClaimable and claim, and Supervisor/Dispatch is dispatchClaimed and runOnce. What
-- other callers do while dispatchClaimed awaits the dispatcher is an argument of it; a sequence of
-- calls (Calls) may hold such dispatches within dispatches, to any depth. The other modules of
-- Supervisor hold proofs: Hoare, Update, Kept, KeptRun and KeptCalls show that what holds of every
-- new task and survives every update of one holds after any calls, which Invariants uses twice.
--
-- Numbers are natural: counts, options and milliseconds of the source are never negative where a
-- method accepts them. A time stamp is what Date.parse makes of it (Time); times before 1970 are
-- left out. A text is its list of UTF-16 units. The depth-first search of hasDependencyCycle runs
-- on fuel, two more than the number of keys, which bounds its depth, since it goes down only from an
-- id that is not active. SHA-256, the size of the serialised state and the failure of the atomic
-- write are parameters (Env). Not modelled of the queue: the fields of a handoff that are only
-- passed on or checked by type, and the reading of the state file.
--
-- Routing is what takes work over when a provider fails. Routing/Budget and Routing/Tiers are
-- src/data/delivery-system/subscriptionBudget.ts, Routing/Circuit is
-- src/data/delivery-system/routingGuards.ts and Routing/Fallback is
-- src/data/delivery-system/fallbackChains.ts: failures are grouped by provider and tier into circuits,
-- and resolveFallback takes the first step of the chain whose target the budgets and circuits allow.
-- The map of computeTierCircuitState is an association list whose keys are pairs, and the comparison
-- of its sort a parameter, since it is the host's localeCompare. Notes for readers in tiers and
-- budgets are left out; the weight of a tier is in tenths; token counts are any number that
-- JavaScript has, so that what safeTokenCount does is visible. The other modules of Routing hold
-- proofs.
--
-- Gateway is src/data/delivery-system/tokenGateway.ts, the gate before every call of a provider, which
-- holds tokens for a request and charges what was used. Gateway/Types holds its data, Gateway/Store the
-- private methods of TokenGateway, Gateway/Reserve, Gateway/Settle and Gateway/Groups the public ones,
-- Gateway/Valid and Gateway/Coherent what isGatewayState asks of the state file, and Gateway/Calls the
-- sequences of calls, restarts among them. A call takes the gateway in memory, the state on disk and the
-- telemetry, and returns a result or an error with what it leaves, since the source changes the state
-- before it is saved. Gateway/Stable names the changes of the state and Gateway/Preserved carries what
-- they all keep to the methods; the other modules of Gateway hold proofs. Parameters (Env, Stamp): the
-- limits, the size of the JSON text, the failure of the atomic write, whether the telemetry can be
-- written, the order of localeCompare, random ids, the time, and the dates that Date prints back.
-- Numbers are exact, without the rounding of doubles. Dict is a JavaScript object used as a map.
--
-- Dispatch joins the gateway to the rest: Dispatch/Handoff, Dispatch/Gates and Dispatch/Run are
-- src/governed-core/dispatch.ts, where dispatchHandoff checks a handoff, reserves tokens, runs a worker
-- and settles, and Dispatch/Modes is src/data/delivery-system/routingModes.ts. Parameters (Host): the
-- packet of the live mesh, JSON, SHA-256, the routing decision, the preparation of a session, the
-- worker, and what other calls of the gateway do while it runs. Of a handoff, what the worker is only passed is left out.
--
-- Owner is what the owner decides and limits. Owner/Approval is
-- src/data/delivery-system/approvalQueue.ts, whose file is a text on disk, with JSON and the atomic
-- write as parameters; Owner/Session is src/data/delivery-system/sessionRegistry.ts without its file;
-- Owner/Brainstorm is src/data/delivery-system/brainstormBudget.ts; Owner/Profile is
-- src/data/delivery-system/executionProfile.ts. The other modules of Owner hold proofs.
--
-- Auth is src/data/delivery-system/authSessionRegistry.ts: Auth/Registry holds the methods of
-- AuthSessionRegistry on what its two files hold, an association list from digests to sessions and the
-- service token. SHA-256, the order of localeCompare and the failure of the atomic write are
-- parameters; reading the files is not modelled. Auth/History is sequences of calls, with any outcomes.
-- The other modules of Auth hold proofs.
--
-- Supervision is src/data/delivery-system/protectiveSupervision.ts: Supervision/Policy its tables and
-- Supervision/Route the choice of lanes, checks and stop conditions for a task; Supervision/Repair
-- holds proofs. Upper and lower case are those of ASCII.
--
-- Prelude holds what the parts share: tests on numbers, lists and their array methods, texts and
-- results; Time is the time stamps. A module named Scenarios holds runs of its part on concrete inputs.
-- Dispatch and Gateway are joined as the source joins them; the other parts are modelled one by one,
-- since the source joins them only by the caller: a server that passes the results of one to another. Not modelled, for now or because they are input and output:
-- the quota scheduler, the stores of runs, brainstorms and incidents, the workers
-- that start provider programs, the durable files and their locks, the decision mesh, and the user
-- interface.

pub mod Prelude
pub mod Time
pub mod Auth
pub mod Dict
pub mod Dispatch
pub mod Gateway
pub mod Owner
pub mod Routing
pub mod Supervision
pub mod Supervisor
