-- ===== src/Lib.antt =====
-- A verification of the decision-making core of the Ethixweb AI receptionist: the shared kernel that every
-- service stands on, the admission of calls, the conversation of a call and the tool broker of the voice
-- orchestrator, the session of a call in the voice runtime, and the sessions, calls, leads and emergency
-- escalation of the core API.
--
-- Parts and files
--   Common (Tests, Lists, Dict, Text, Codes, Decimal, Spaces): shared names, Boolean tests, lists
--     over the native numbers, maps, texts, texts as lists of code units, and the printing of
--     numbers.
--   Kernel/Breaker: packages/shared-kernel/src/retry/circuit-breaker.ts. `execute` is split at its
--     `await` into `begin_call` and `settle_call`; Sequential runs calls one after the other,
--     Interleaving lets them overlap (a step function on a breaker with the calls that wait), Registry
--     is `CircuitBreakerRegistry`.
--   Kernel/Retry: packages/shared-kernel/src/retry/retry-policy.ts. Attempts is about the loop of
--     `withRetry`, Delays about `computeBackoffDelay`. The loop takes the number of attempts that are
--     left as its fuel and starts with all that are allowed, so that fuel is always enough.
--   Kernel/Outbox: packages/shared-kernel/src/outbox/outbox.ts.
--   Kernel/Idempotency: packages/shared-kernel/src/idempotency/in-memory-idempotency-store.ts, with View and
--     Exclusive; Kernel/Idempotency/Redis: redis-idempotency-store.ts beside it, with Refinement between
--     the two.
--   Capacity: apps/voice-orchestrator/src/modules/capacity. Brochure is domain/brochure-rotation.ts,
--     Admission is infrastructure/redis-call-admission.adapter.ts with its three Lua scripts; Ceilings,
--     Slots and Aging are about one reservation, sequences of operations, and time.
--   ToolBroker: apps/voice-orchestrator/src/modules/tool-broker, all stages of `ExecuteToolUseCase` on the
--     in-memory store and `with_retry` of the kernel; Guards is about stages 1 to 3, Executions about the
--     rest.
--   Auth: apps/core-api/src/modules/auth. Roles is domain/role-assignment-policy.ts and the roles guard,
--     Registration is `RegisterUserUseCase` with `registerTeammate` of the controller, on a table of users,
--     with Owners about who becomes an owner,
--     RefreshTokens the Redis store of refresh tokens with the use-cases that rotate and revoke them,
--     Rotation what many clients do to that store. Login is the rate limiter and `LoginUseCase`; Limit and
--     Passwords are about how often a password is checked.
--   Calls: apps/core-api/src/modules/calls, `StartCallUseCase` and `EndCallUseCase` on the rows of
--     infrastructure/prisma-call.repository.ts. An end of a call is a read and a write, with other requests
--     in between; Rows is about the update, Starting, Ending and Races about the use-cases.
--   Leads: apps/core-api/src/modules/leads, the lifecycle with `TransitionLeadStatusUseCase`,
--     `ClaimLeadUseCase` and `HandleLeadConvertedFromCrmUseCase`, read and write apart as for calls;
--     Statuses and Legal are about the lifecycle, Claims about the claims.
--   Tenants: apps/core-api/src/modules/tenants, tenants without their businesses: the lifecycle, creation,
--     renaming and `TransitionTenantStatusUseCase`, whose statements are apart. Lifecycle is about one
--     request, Phases about many.
--   Conversation: apps/voice-orchestrator/src/modules/conversation, what is stored of a call and the
--     requests that change it. States and Records are the domain. Repository is the port that all
--     use-cases stand on, a record of operations with their laws; Evolution is what the requests of a call
--     may make of its conversation, Redis is infrastructure/redis-conversation.repository.ts, with
--     Refinement about the laws and RoundTrip about what is read again. Changes is the transition and the
--     interruption, with Kept about what others have stored and Notes about the message that is annotated;
--     Ending is `EndConversationUseCase`, with Sends and Once about what it sends; Admission is `admitTurn` and
--     `execute` of `HandleTurnUseCase` on the store of Kernel/Idempotency, with Starts and Replay, where
--     the body of the turn is any function; Turns is how `HandleTurnUseCase` saves a turn, with
--     Additions and Saved about what is stored and what is lost; Starting is `StartConversationUseCase` on Capacity/Admission, with Reservations
--     about the slot. Between any two statements of a use-case other requests come in, as a function on
--     states that is assumed to make of the conversation no more than Evolution says. Window is
--     domain/context-window.ts (Pairs and Requests are about the tools in it); Segments and Speech are
--     `findSpeechSegmentBoundary` and `streamOneCompletion` of application/handle-turn.use-case.ts, on a
--     stream of chunks that is finite; Passing and Whole are about what is spoken of one.
--     Tools is its `runTool`, on the values of Json, with Gating about the refusals, Runs about what an
--     answer changes, and Leads about the requests that create a lead; ToolLoop is the loop of `runTurn`
--     over completions and tools, with the emergency check in front of it: Backstops adds requests, Calls
--     runs those of one completion, Rounds is the loop with its bound of five, with Awaiting and Answered
--     about it. The completions, the broker and what is asked of the caller's words (save-readiness.ts,
--     name-grounding.ts, call-notes.ts and the patterns beside the loop) are functions that it takes; the
--     notes in front of the loop and the fallback lines behind it are left out.
--   CallSession: apps/voice-runtime/src/modules/call-session/application/call-session-orchestrator.ts. The
--     fields of the orchestrator are a record, a handler is a function on it, and what is awaited is a
--     later event. Floor is about barge-ins; Fragments is how the caller's words are held and become turns,
--     with Turned about the start of one, Words (on Hearing) about the words, and Holds (on Timers) about
--     the time they are held. Backchannel is application/backchannel-detector.ts, and SpokenDigits and
--     FragmentDetector are the partial numbers and the strength of a fragment in fragment-detector.ts beside
--     it; the handlers take any detectors.
--   Emergency: apps/core-api/src/modules/emergency-rules. Rules and Defaults are the domain, Words and
--     Matching are `matchesPattern` and its helpers, Shortage describes `matchesShortage`, OnCall is
--     `ResolveOnCallUseCase` with its queries, Escalation is `EscalateEmergencyUseCase` on all of these,
--     with Patterns about the defaults and Floor about its results.
--   Examples: witnesses at concrete inputs, and tests.
--
-- How code is read
--   State is passed explicitly, and an object's fields are a record. The clock, random draws and what a
--   call outside the repository does are arguments. An exception is a value: `Option`, or a type of the
--   ends that an operation has. An operation of one service is one step unless its file says otherwise.
--   Numbers are naturals: times in milliseconds, ratios as exact fractions in place of floating point.
--   Redis (Capacity/SortedSets, and the records Redis of Kernel/Idempotency/Redis, TokenRedis of
--   Auth/RefreshTokens, CounterRedis of Auth/Login and HashRedis of Conversation/Repository/Redis) and JSON
--   are records of operations with the laws that their documentation gives. The output guard is a parameter
--   of Conversation/Speech, and the detectors are one of CallSession.
--   Letters outside ASCII are not put in lower case by Emergency/Words.
--
-- Not modelled
--   Logging and tracing, dependency injection, controllers but for registration, the user interface, audio transport and the
--   providers' protocols, which decide nothing that is stated here. The other modules of the core API
--   (customers, knowledge, notifications and others), the creation of leads and businesses, API keys,
--   and of a turn the output guard and the notes on the call are not modelled.
pub mod Common
pub mod Kernel
pub mod Capacity
pub mod ToolBroker
pub mod Auth
pub mod Calls
pub mod Leads
pub mod Tenants
pub mod Conversation
pub mod CallSession
pub mod Emergency
pub mod Examples
