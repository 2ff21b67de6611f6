-- ===== src/Lib.antt =====
-- The demo's services: a broker that hands out runners to sessions, a presenter that synchronises
-- slides and runs polls over WebSocket connections, and the runners with the visitors' shells.
--
-- How the parts interact. The broker's service (broker/service) searches the buckets of its
-- repository (broker/store, a DynamoDB table) for an idle runner, checks its health
-- (broker/healthcheck) and deletes it if the check fails. The presenter's message handler
-- (presenter/cmd/message) dispatches a message to the slide, hands-on, viewer count and poll handlers
-- (presenter/internal), which read the table of connections and send to the connections of a room
-- through the broadcaster; the login function (presenter/cmd/login) makes the sessions of presenters. A
-- runner (runner) registers with the broker's HTTP handlers (broker/handler), keeps one shell per
-- session, and asks a language model about commands that are not on a whitelist.
--
-- A call that reaches a service is a function from the state of the world outside to a result and the
-- world after it (Effect.antt: `Eff`, `>>=`, `attempt` for code that looks at `err`; `wrapping` is
-- fmt.Errorf with %w). The AWS SDK, JSON, the clock and the random numbers are fields of records that
-- the definitions take; what the theorems rely on of them is in records of laws (`IsDynamo`,
-- `IsLawful`, `IsAvailable`, `IsSearched`, `IsRecorded`, `IsQuiet`, `IsFresh`). Commit.antt says what a write
-- request does: it is committed whole where its conditions hold, or has an error and no effect, and
-- the answer to a committed one may be lost. Keeps, Ends and Answers are three ways to state what a
-- function does, with a rule for each way to build one. Opened says which pipes and shells are open.
--
--   GoError              the error values, errors.Is and errors.As
--   Presenter/Poll       presenter/internal/poll: Store.Get, Vote, Unvote, Switch (get, vote, unvote,
--                        switch); Rows: the table, its condition expressions and transactions; Tally,
--                        Writes, Exact: the counters; Available, Distinct, Outcomes: the answers; Limit,
--                        Race: the limit on choices; SortKey: the keys of ballots; Memory: a client
--   Presenter/Connection presenter/internal/connection and session: Put, Get, Delete, QueryByRoom,
--                        CountByRoom, IsValid, Create; Pages: the loops over pages
--   Presenter/Broadcast  presenter/internal/broadcast: Send, SendToOne; Delivery: whom they reach
--   Presenter/Room       presenter/internal/roomstate: PutState, GetState
--   Presenter/Slides     presenter/internal/slidesync, handson, viewercount: the Handle functions;
--                        Access: who may use them
--   Presenter/Messages   presenter/cmd/message/main.go: handle and the functions that it dispatches to
--   Presenter/Visits     presenter/cmd/connect and presenter/cmd/disconnect: their handle functions;
--                        Roles: who is stored as a presenter
--   Presenter/Assembly   newAPIGWEndpoint, newHandleDepsFactory, newBroadcasterFactory and the handlers
--                        that the run functions make, over the stores; Tallies, Privilege: any
--                        sequence of events; Ballots: one vote. The modules Frames, here and below
--                        the other parts, say what a function keeps, given what its calls keep
--   Broker/Store         broker/store/dynamo.go and broker/model/runner.go: Register, AcquireIdle,
--                        FindBySessionID, FindByID, Delete; Rows: the table; Invariants, States: what
--                        the operations keep; Acquired: AcquireIdle as one step; Exclusive: which
--                        rows have a session; Termination: its loop; Memory: a client
--   Broker/Service       broker/service/service.go: createSession, ResolveSession, CloseSession,
--                        RegisterRunner, DeregisterRunner; Sessions, Exhaustion: their results;
--                        Progress: that they end; Frames, Creates, Exclusive: what they keep
--   Broker/Handler       broker/handler, broker/model/error.go: DeleteSession, GetResolve, PostRegister,
--                        DeleteRunner, validateRunnerURL, RequestIDMiddleware; Routes: where a visitor
--                        is sent; Broker/HealthCheck: broker/healthcheck/checker.go
--   Broker/Router        broker/main.go: newRouter and what defaultInitHandler makes, NewBrokerService
--                        and its options; Runners, Exclusive: any sequence of requests
--   Presenter/Login      presenter/cmd/login/main.go: handler, handleGet, handlePost, generateToken;
--                        Passwords: who gets a session
--   Runner/Validate      runner/validate.go: classifyCommand; Runner/Session: runner/session.go
--   Runner/Shell         runner/shell.go: ExecuteStream, readStderr, checkStderrMarker (execute_stream,
--                        read_stderr, check_stderr_marker); Text: lines; Stdout, Stderr, Stream: what
--                        a command prints; Synchrony: what is left; Process: the start and the end of
--                        the bash process
--   Runner/LlmValidator  runner/llm_validator.go: Validate, parseToolUseResult; Attempts: its calls
--   Runner/Handler       runner/handler.go: handleCreateSession, handleDeleteSession, handleExecute;
--                        Decision: which commands run
--   Runner/Router        runner/handler.go: newHandler, handleHealth, writeSSE, auditLog; Accounts: the
--                        shells under any sequence of requests (Runner/Session/Accounts: each method)
--   Broker/Main, Runner/Main, Presenter/Wiring: broker/main.go, runner/main.go and the run functions of
--                        presenter/cmd: the environment, start and end; Runner/Main/Shutdown: the end
--   Runner/Register      runner/register.go: register, deregister; Retries; Runner/Identity:
--                        runner/identity.go: resolveIdentity; Arn: the id in a task's ARN; Runner/Http:
--                        defaultHTTPPost and defaultHTTPGet of these files
--   Tests                runs and instances on concrete inputs
--
-- Loops. The loop of AcquireIdle, the search in one bucket of createSession and the loops over the
-- pages of a query are on fuel, and `none` or `out_of_fuel` says that it ran out. Pages need as much
-- fuel as there are pages, and the search in a bucket needs more than there are runners that can be
-- acquired, as each turn takes one. The loop of AcquireIdle goes on while a pass tried a new runner, so
-- it needs one turn more than there are runners (Broker/Store/Termination). The other loops are
-- recursions on lists or on the number of buckets.
--
-- Numbers are natural numbers and integers without overflow: counters of votes, pages and seconds stay
-- far below the 63 bits of Go's int. A nil slice of options is `none`; a nil connection is `none`
-- where a handler looks for it. Contexts are modelled by the error that they have after a failed
-- check. Logging is left out. A lock of the session manager is held for a whole step on the map.
--
-- A shell's stdout is the lines that the scanner gives, and its stderr the reads of the goroutine up to
-- the moment when a call takes the buffer; a call that waits for the marker on stderr without end is
-- `none`. The register loop is on fuel.
--
-- Not modelled: the construction of SDK clients, since it has no logic but calls to libraries; how gin
-- finds the handler of a request (a parameter of Broker/Router; equality of paths in Runner/Router)
-- and how API Gateway orders events (any order is a sequence of events in Presenter/Assembly); the end
-- of a process by log.Fatalf; logging; the locks of the shell, which make its calls sequential as they
-- are here; and everything that is not Go.
-- DynamoDB deletes rows whose time to live is over: `swept` says that it has deleted one of the poll
-- table, and nothing is said of the table after that. Queries without ConsistentRead may be behind;
-- the answers of the poll operations are stated for reads that are up to date (`IsAvailable`).
mod Prelude
pub mod GoError
pub mod Effect
pub mod Broker
pub mod Presenter
pub mod Runner
mod Tests
