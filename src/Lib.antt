-- ===== src/Lib.antt =====
-- YuFeng: a model of the data plane's decisions, of the signed objects behind them, of the events it
-- keeps for upload and of the control plane's budgets and limits, in the Go packages lib/kernel,
-- lib/edgecore, lib/edgeclient, lib/replay and lib/brain.
--
-- The program. The control plane (lib/brain) drafts protection releases, replays them over a corpus
-- (lib/replay), and signs what passes the gate; lib/kernel has the identity and signature of an
-- artifact, the state machine of a release and the signature of a generation, which is the list of
-- releases of one asset. The edge (lib/edgecore) verifies a generation, swaps its set of releases for
-- it, and for each request builds a canonical view, inspects it and lets the gate decide; the posture
-- of the entry and the HTTP status follow from the decision. The external authorization adapter puts a
-- circuit breaker in front of the same gate. What the edge sees it appends to a bounded spool on disk
-- (lib/edgeclient), uploads, and resolves by the acknowledgement of each event. The control plane
-- reserves from the budget of a run before each step, call of a model or call of a tool, settles what
-- was used, and limits calls by sliding windows.
--
-- The files.
--   Base             natural numbers, lists, association lists for Go's maps, results for errors
--   Kernel/Artifact  lib/kernel/artifact.go: ArtifactID, VerifyArtifact, SignArtifact,
--                    SignArtifactWithSigner
--   Kernel/Release   lib/kernel/release.go: Draft, Signed, Shadow, Canary, Enforce and Retired, NewDraft,
--                    Gate, GateWithSigner, StartShadow, PromoteCanary, PromoteEnforce, ActiveOf,
--                    RetireActive. Steps has the step relation of a release, Laws what it reaches,
--                    Traces the two gates and the uses that the comments rule out
--   Kernel/Generation  lib/kernel/generation.go: SignGeneration, VerifyGeneration
--   Kernel/ListenPlan  lib/kernel/listen_plan.go
--   Edge/Types       the values of lib/edgecore/detector.go, canonical.go, evaluate.go and inspector.go
--   Edge/Text        paths of lib/edgecore/shape.go, and what is used of Go's text functions
--   Edge/Selector    selectorValue, jsonField and headerFirst
--   Edge/Policy      lib/edgecore/evaluate.go: PolicyCandidateBlocksOn and what it calls
--   Edge/Status      lib/edgecore/status.go: HTTPStatus, MarkBodyPartial
--   Edge/Rule        lib/edgecore/rule.go: NewRuleDetector, Match; and ScopedDetector of scope.go
--   Edge/Shape       lib/edgecore/shape.go: ValidateShapeSource, compileShape, Violates
--   Edge/Canary      lib/edgecore/canary.go: the buckets
--   Edge/Gate        lib/edgecore/release_set.go: gateWith, its loop and its counters
--   Edge/Generations lib/edgecore/generation.go: GenerationStore.Load
--   Edge/Member      lib/edgecore/release_set.go: what the payload of an item decodes to
--   Edge/ReleaseSet  lib/edgecore/release_set.go: Apply and applyMember; Swap has ApplySnapshot,
--                    ApplyGeneration, validateGenerationDependencies and swapFrom; Counters has Gate,
--                    RecordLatency, p99 and Counters; Runs has any sequence of these calls
--   Edge/Listen      lib/edgecore/release_set.go: ApplyListenPlan
--   Edge/Review      lib/edgecore/traffic_review.go: ValidateTrafficReviewPolicy
--   Edge/Version     lib/edgecore/release_set.go: edgeVersionCompatible
--   Edge/Breaker     lib/edgecore/external_authorization.go: tryHalfOpenLocked, record, ServeHTTP;
--                    History and Recovery have any sequence of samples, HalfOpen any of probes
--   Brain/Budget     lib/brain/run_budget.go over the tables of
--                    lib/store/migrations/00030_run_budget_accounts.sql: Reserve has
--                    createRunBudgetAccount and reserveRunBudget, Settle the rest; Ledger states the
--                    invariant, ReserveKept, SettleKept and CloseKept keep it, Runs has any sequence
--   Brain/Limits     lib/brain/ratelimit.go: UnitLimiter, windowLimiter, pollGate and the clamps
--   Client/Lines     lines of bytes, as lib/edgeclient/spool.go reads and writes them
--   Client/Events    eventClassCounts and isOrdinarySample of lib/edgeclient/spool.go
--   Client/Spool     lib/edgeclient/spool.go: NewSpool, Append, ReadEvents and Remove; Rewrite has
--                    Rewrite, ResolveUpload and Quarantine
--   Client/Ack       lib/edgeclient/upload_acknowledgement.go
--   Replay           lib/replay: Run, RunPolicy and RunShape; Tally has what a report says of a corpus,
--                    Verdicts what each replay does
--   Checks           tests on concrete inputs
--
-- How the code corresponds. A struct is a record, a method a function that takes and returns the
-- record; locks are left out, and a run is a sequence of calls: ServeHTTP and ApplyGeneration,
-- which take the lock several times, run without another call in between. A pointer or an interface
-- that may be nil is an `Option`. `(value, error)` is a `Result`, or a pair where Go returns a
-- value beside the error or changes state before it returns. A map is an association list: the
-- order in which Go ranges over it is the order of the list. The clock is an argument.
--
-- State outside the process. The tables of the budgets are a record of association lists, and a
-- function over them runs in a transaction, so that an error leaves them as they were. The directory of
-- the spool is one too, by the stems of its files; what the calls of the system come to is an argument
-- of each function, so that every failure, also a write that gets a part of the bytes out, is a case.
-- The entry that a full limiter drops is an argument, since Go's map iteration may meet any.
--
-- Numbers. An int32 or int64 is a natural number: where the code tests for a negative value it does
-- with it what it does with zero. The amounts of the budgets are int64 values modulo 2 ^ 64, with
-- their sign and their wrap-around. Times and durations are in nanoseconds since the zero time, those
-- of the budgets in microseconds. Scores are only compared, so a score is a rank. The counters of a
-- release and of the spool wrap at 2 ^ 64; sequence numbers are below the largest int64. Every function
-- is structurally recursive, so no fuel is needed.
--
-- Parameters. `Crypto` and `GenerationCodec` stand for protocol buffers, SHA-256 and Ed25519,
-- `GoText` for the functions of Go's strings, url, regexp, unicode and json, and `Payloads` for
-- the decoding of payloads. The laws of Ed25519 are the hypothesis `Ed25519Laws`, and `IsSignerOf`
-- says of the signer that GateWithSigner calls that it signs with the key; whether it is the
-- signing process or one inside the program is not modelled. `EventCodec` stands for protojson,
-- with the hypothesis `IsCodec` that the line of an event is one line and is read back. Parameters
-- too, though their code is the repository's, are the compilation of inspectors and the
-- normalisation of model profiles, which `Payloads` also has, the canonicalisation of a request
-- that a replay calls, the validation of listen plans, and the regular expression of a UUID.
--
-- Not modelled: the canonicalisation of a request, the inspectors, the taxonomy, the validation of
-- listen plans, the collector of traffic reviews, the review spool and the connections of
-- lib/edgeclient and the rest of the control plane; requestSource and the tokens of pages of
-- lib/brain/ratelimit.go, which parse addresses and base64; the commands, databases, queues,
-- agents and the console are input and output.
pub mod Base
pub mod Kernel
pub mod Edge
pub mod Brain
pub mod Client
pub mod Replay
pub mod Checks
