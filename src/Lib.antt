-- ===== src/Lib.antt =====
-- CratosAi is a voice assistant made of services. This library models the parts of its Go services that
-- decide what may be done for a user and what is remembered of it, and proves what makes them correct.
--
-- The parts and how they meet. A phone pairs with app-api and gets tokens; it talks to the
-- voice-gateway, which relays speech and the calls of tools. The orchestrator runs the tools, keeps
-- background tasks and asks the user before it changes anything in an integration; it reaches
-- integrations through the mcp-router. What was done goes to the audit service, whose records are
-- chained by hashes.
--
-- Which file models what:
--   App (services/app-api/internal/store/store.go): App/Model has the rows, App/Sessions pairing codes
--     and sessions (CreatePairingCode, RedeemPairingCode, Refresh, SignOut, Sessions, Revoke, Purge),
--     App/PushTokens the device tokens (SetPushToken, PushTokens and the deletions).
--   Audit (services/audit/internal): Audit/Encoding and Audit/Chain are chain/chain.go, the text that is
--     hashed; Audit/Store is Append and Audit/Store/Verify is Verify, of store/store.go.
--   Orchestrator (services/orchestrator/internal): Orchestrator/Model has the rows of store/store.go;
--     Tasks, Confirmations, Conversations, Events, Notifications (with the memory jobs) and Devices
--     are its statements, a function each, named as the Go methods are. Orchestrator/Engine is the
--     running of tools of engine/execute.go and engine/voice.go (dispatch, runAction, settle,
--     refuse) with completePending of engine/tasks.go. Below it, of engine/: Calls has the
--     conversation calls of voice.go and Voice its function calls (voiceCall, voiceTool,
--     askConfirmation, startTask, awaitApproval); Approvals is SubmitApproval and dropApproval of
--     voice.go; Telling is emit and notify of engine.go with finished and Cancel of tasks.go; Running
--     is the worker's loop of tasks.go (runTask, save, finish, pauseTask, expireWithoutConversation);
--     Catalog is catalog.go and Memory is memory.go. The folders of the same names have the proofs.
--   Router (services/mcp-router/internal/limits/limits.go): the rate limit; Router/Limits/Bucket has the
--     leaky bucket that it is compared with.
--   Voice (services/voice-gateway/internal/session): Limiter is limiter.go, Outbox is outbox.go.
--     Voice/Jarvis is jarvis.go, the orchestrator side of a session: Model its state, Delivery and
--     Handlers what the provider loop runs, Steps its goroutines and a whole session. Voice/Session is
--     session.go: the events of the provider and barge-in, with the client's audio in Upstream and
--     the start and the end of a session in Starting. Voice/Jarvis/Consent joins the session to the
--     confirmations of the orchestrator's store.
--   Prelude has the shared tests, lists, tables (Rows) and answers of statements (Results).
--
-- How the code is written down. A table is a list of rows and a statement a function of the database; a
-- transaction that fails leaves the database as it was; now() is an argument. What a table's key or
-- UNIQUE column forbids is the answer `rejected`. Ids, hashes of tokens and times are numbers, and times
-- and durations count microseconds, but milliseconds in Router. Two statements do not overlap: the
-- interleavings are sequences of steps (the types Op), which is what row locks and single statements
-- give; the outbox, whose push signals after its lock is released, has a step relation of its own.
-- Parameters stand for SHA-256, for JSON, for the collation of texts, for the token bucket of floating
-- point and for the services, models, devices and tools that are called: whether a send succeeds is
-- given call by call, what a pass of a task meets (its answers, its lateness, whether SetTaskState is
-- written, what other sessions wrote meanwhile) by the number of the pass, and the order in which Go
-- walks a map as a list. The id 0 stands for the empty text. Integers of Go are unbounded here: the
-- counts stay far below 2 ^ 63.
--
-- Fuel: the loop of Verify runs once more than there are rows, which is enough, since every full page
-- takes at least one row. The loop of a task has fuel for each step that is left, as many passes as
-- the calls of a model's answer and four more, with the calls that wait and three attempts, since
-- each pass uses up a step, a call or an attempt. A name is looked for once more than there are names
-- in use, which is enough, since the candidates differ. Every other loop is recursion on a list.
--
-- Not modelled: metrics, logs and migrations; the RPC and HTTP layers and the realtime client; in the
-- orchestrator the streams that watch for events (the broker, Watch, ClaimNotifications), the text of
-- a task's introduction and of results (callMCP, runDevice) and the audit records; the router's store
-- and OAuth; generated code, and what is written in Rust (vault, daemons), Python (knowledge, agent),
-- TypeScript and Swift (apps).
pub mod Prelude
pub mod Audit
pub mod App
pub mod Orchestrator
pub mod Router
pub mod Voice
