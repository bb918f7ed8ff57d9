-- ===== src/Lib.antt =====
-- A verification library for github-runners-infra, a service that provisions one ephemeral cloud
-- runner for each queued GitHub workflow job and removes it afterwards.
--
-- The program. `cmd/webhook` runs the HTTP handler of `internal/webhook`, whose workers and reaper
-- drive the durable store of `internal/state`, the GitHub client of `internal/github` and a cloud
-- provider of `internal/digitalocean`, `internal/aws`, `internal/azure` or `internal/gcp`. The
-- decisions that must survive a crash are made in `internal/state/store.go`: which job is
-- provisioned or deleted next, how often it is retried, whether a runner is owned, and when a
-- record is forgotten. `internal/webhook/handler.go` decides which webhooks count, and in which
-- order a worker or the reaper calls the store, GitHub and the provider. The library models these
-- two files, the client in `internal/github`, and what `cmd/webhook/main.go` does before the service
-- starts: the reading of its settings and the check of the token.
--
-- The parts.
--   Prelude: Go strings as lists of bytes, `strings.ToLower`, `strings.Split` and `strings.Join` at a
--     byte, `strconv.Itoa`, `strconv.ParseInt`, Boolean tests.
--   Dict: a Go map as an association list, with its laws.
--   Program: code that makes calls, as a tree of them (`Prog`), over any type of calls. An
--     `Environment` answers each call by all that came before, so that a statement about every
--     environment covers every interleaving with other goroutines. Program/Rules has the logic by
--     which such statements are proved.
--   Record: the struct `Record`. Each method of the store that runs through `FileStore.update` has a
--     closure `on_<method>` in Record/Claims, Record/Provisioning, Record/Reconciling or
--     Record/Deleting; Record/Recovering has `recoverRecord`. Record/Transition lists the closures as
--     one data type, and Store/Lifecycle adds the other writes to a record that exists.
--   Store: the struct `FileStore`, its files (`Disk`: a snapshot and a journal of lines with a
--     possible tail that lacks its newline) and the answers `Os` that the operating system gives to
--     the calls of one operation. Each operation takes the store and returns a result and a store.
--     Store/Journal and Store/Save model `loadJournal`'s replay and `saveLocked` with its rollback
--     and compaction; Store/Update models `update`; Store/Methods, Store/Observe, Store/Claim,
--     Store/Completion, Store/Registration, Store/Sweep the exported methods; Store/Identity the keys of the runner
--     index; Store/Open the opening and closing. Store/Operations is the step relation of all of
--     them.
--   Webhook: `internal/webhook/handler.go`. Its pure decisions are in Webhook/Names, Webhook/Labels,
--     Webhook/Limits, Webhook/Delays, Webhook/RunnerName and Webhook/Request; Webhook/Construction is
--     `NewHandler`. Its stateful code is
--     written as programs over the calls of Webhook/Calls (Webhook/Program names them), with the
--     errors of Webhook/Failure: Webhook/Ingest has `ServeHTTP`; Webhook/Provision and
--     Webhook/Demand `provision` and what it falls back to; Webhook/Deletion `delete`; Webhook/Retreat
--     what they share; Webhook/Worker `process` and a round of `worker`; Webhook/Liveness,
--     Webhook/Expiry and Webhook/Reaper the reaper.
--     Webhook/Stored says which calls of the store end a claim, by the closures of Record.
--   GitHub: `internal/github`. GitHub/Http has the requests, the replies and the parameters;
--     GitHub/Endpoints the URLs, with `url.PathEscape`; GitHub/Errors `apiStatusError`; GitHub/Scope
--     (`app.go`) `tokenScope`; GitHub/Token the JWT and `InstallationTokenContext`, where the fields
--     under the lock are a `Cache` that is passed along; GitHub/Runners (`runner.go`) and
--     GitHub/Workflows (`job.go`, `workflow.go`) the other methods of `App`. They are what answers
--     the calls of GitHub that Webhook/Calls leaves open.
--   Commands: `cmd/webhook/main.go`. Commands/Settings reads one setting, Commands/Config is
--     `loadRuntimeConfig`, Commands/Startup is `validateGitHubTokenScope` with its retries.
--   Examples: concrete stores, handlers and worlds, and the theorems at them.
--
-- Conventions. An instant is its distance in nanoseconds from Go's zero time, so that 0 is
-- `time.Time{}`; each reading of a clock is an argument or a call. Identifiers are natural numbers
-- with 0 for one that is not set; the counters do not wrap around. A journal line is kept as the
-- entry that it decodes to and its length, so that the JSON encoding itself is not modelled. Every
-- loop is structural recursion over a list or over the attempts that are left, and the digits of
-- `strconv.Itoa` take the number plus one as fuel, which is at least the count of its digits. A
-- method holds the lock for as long as it runs, so that concurrent calls are sequences of steps;
-- `MarkProvisioned` gives it back once in between, so that its halves are steps of their own, too. A
-- function that makes calls is a finite tree of them; the endless loops of `worker` and `reaper` are
-- modelled by one round. Contexts are not passed: a call may answer that its context ended. An error
-- is its message and what `errors.Is` and `errors.As` find in it. The numbers in GitHub's answers
-- are not negative.
--
-- Not modelled: the clients of the clouds; SHA-256, HMAC, JSON, PEM, x509, the signature of a JWT,
-- base64, dates in headers, and `time.ParseDuration` with `Duration.String`, which are parameters; the
-- goroutines of `Start`; in `cmd/webhook` the selection of the provider, the HTTP server
-- and its shutdown; `cmd/installation-router`; logging, file modes, headers that every request has,
-- the escapes of quoted names in errors, and what case folding and `strings.TrimSpace`
-- do to characters that are not ASCII.
pub mod Prelude
pub mod Dict
pub mod Record
pub mod Store
pub mod Program
pub mod GitHub
pub mod Commands
pub mod Webhook
pub mod Examples
