-- ===== src/Lib.antt =====
-- Kraclaw: chats are answered by agents that run in sandboxes. Messages from the channels are stored;
-- a poll finds new ones, checks who may trigger an agent, and either pipes them to the running agent
-- of the chat or starts a sandbox; the agents' replies are routed back to the channels; a scheduler
-- hands tasks to the orchestrator.
--
-- The parts, with the file of the repository that each translates:
--   Store         internal/store/store.go: the rows, Group.Validate, ScheduledTask.Validate; Messages
--                 is the part of internal/store/mysql.go on messages.
--   Router        internal/router/router.go: RouteOutbound, MatchesTrigger, FormatMessagesForAgent,
--                 escapeXML, stripInternalTags.
--   Auth          internal/auth/auth.go: Authorizer.IsAllowed.
--   Provider      internal/provider/registry.go: NewRegistry, ValidateModel, Models, Providers.
--   RateLimit     internal/orchestrator/rate_limit.go: TokenBucket, TryAcquire.
--   Scheduler     internal/scheduler/scheduler.go: computeNextRun, runTask.
--   Orchestrator  internal/orchestrator/orchestrator.go, by handlers: Cursors (saveState,
--                 flushConfirmedCursor), Load (loadState), Trigger (hasTriggerMessage), Spawn
--                 (spawnAgent with the closures that undo it), Process (claimSandboxSlot,
--                 processGroupMessages), Poll (refreshGroups, pollMessages), Agent
--                 (handleIPCMessage), Deactivate (the closure of that name in watchGroupOutput),
--                 Tasks (executeScheduledTask), Upkeep (handleSandboxEvent, reconcileActiveSet,
--                 recoverPendingMessages, reconcileIPCStreams), Inbound (onInboundMessage,
--                 onChatMeta); Commands is internal/orchestrator/commands.go. World has the state and the calls
--                 that they share, Moves what is said of cursors.
--   ChatGpt       internal/auth/chatgpt: Jwt (jwt.go), Device, Poll and Tokens
--                 (device_flow.go), Refresh (refresh.go).
--   Queue         internal/queue/nats_queue.go: Enqueue, Dequeue, Peek, Len.
--   Server        internal/server: EventHub (event_hub.go), Security (grpc_security.go).
--   Channels      internal/channel/registry.go.
--   CredProxy     internal/credproxy: Rows and Table (credential_store.go), Encrypt (encrypt.go),
--                 Resolver (Resolve, upstreamPath, hostGuard, credentialMiddleware of proxy.go).
-- In each part, the modules named Samples are examples, and the other children hold the proofs.
-- Prelude passes on the library's names and adds lists, texts, maps and integers over native numbers.
--
-- A handler is a function from a state to a result and a state. The state has the fields of the
-- struct, the strings of the last save, and a log of the calls made of the other components, the
-- newest first. Those components (store, queue, broker, sandbox controller, channels, clock) are not
-- translated: their answers are any functions of the log, so a theorem holds whatever they answer and
-- at whichever call they fail. A result `none` or `false` of such a function is an error.
--
-- Texts are lists of code points, times are nanoseconds since the zero time, maps with string keys are
-- association lists, and where the source ranges over a map the order is that of the list; the
-- theorems hold for every list. Unicode tables, the verb %q, time formats, JSON and the parsers of
-- schedules are parameters. The tokens of a bucket are the 64 bits of floating point numbers, whose
-- arithmetic is a parameter; the theorem on bursts needs of it what holds of whole numbers up to 2^53.
--
-- The queue runs over a record of operations of JetStream on any state of a broker, and its theorems
-- over a record of laws of them: a stream holds payloads in order, the oldest of which may reach their
-- age at any operation; a fetch yields one of them; and an acknowledgement is only sent, so that its
-- payload may stay and be fetched again. That an enqueue succeeds needs a broker that can be reached.
-- The ChatGPT client runs over any answers of the issuer and any endings of its waits; only
-- the end of the polling needs laws of time, that a timer does not fire early and that a request
-- behind the deadline fails. The event hub is a step relation over its operations. A statement
-- of SQL is a function on the list or map of a table's rows, with whether it succeeds as a parameter, and
-- for the messages also how the database compares texts;
-- the store of credentials takes an encrypter with its law, which Encrypt provides.
--
-- Loops whose end is not plain run on fuel. `strip_loop` takes any fuel, and one round more than there
-- are tagged parts is enough; no fuel is enough where a closing tag comes first. `skip_forward`
-- gets two rounds more than there are nanoseconds to pass, which is enough as a period is positive.
-- The polling for a device code gets
-- one round more than there are first intervals up to its deadline. The retries of a stream (three rounds) and of a dequeue (five) are as in the source.
--
-- What is not modelled: a handler runs without another between its calls, so the locks and the
-- interleavings of goroutines are left out, as are panics and their recovery, logging, metrics and
-- waiting times. Of the other components, the rest of the MySQL store, the IPC broker, the sandbox
-- controller, the reverse proxy behind the middleware, the services of the gRPC server, the terminal
-- client and the agents are left out: much of them is calls of SQL, NATS, Kubernetes, HTTP and
-- terminal libraries.
pub mod Prelude
pub mod Store
pub mod Router
pub mod Auth
pub mod Provider
pub mod RateLimit
pub mod ChatGpt
pub mod Queue
pub mod Server
pub mod Channels
pub mod CredProxy
pub mod Scheduler
pub mod Orchestrator
