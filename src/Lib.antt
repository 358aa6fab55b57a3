-- ===== src/Lib.antt =====
-- patchbay: a gateway that routes OpenAI-compatible requests to backends, by privacy class and policy.
--
-- The modules follow the files of src/ of the repository.
-- Common       shared helpers: Boolean tests on native numbers, lists, results, texts as lists of
--              code points, maps as association lists, and the operations of f64 as a record.
--              Common.Threads runs the calls of several threads, an access at a time, in the order
--              of any schedule.
-- Config       src/config.rs: the configuration, its raw form, the errors. Config.Load is `load` and
--              `from_toml_str`, whose loops are `resolve_backends` and `resolve_virtual_keys`.
--              Config.Backends, Config.Keys and Config.Coherent say which configurations load, and
--              Config.Errors what an error of loading means. Config.Secrets compares loading with
--              loading from an environment that has other secrets.
-- Router       src/router.rs: privacy classes, `gather`, `select`, `route`, StaticPriority.
--              Router.Ewma is EwmaLatency, with its statistics as a map. Proofs are in
--              Router.Typed, Router.Eligible, Router.Choice, Router.Latency and Router.Opaque.
-- Auth         src/auth.rs: the key store and the extractor; proofs in Auth.Admits.
-- Upstream     src/upstream.rs. Upstream.Scanner is UsageScanner: `feed` appends a chunk to the buffer,
--              `drain` takes the complete events off it, and `process_event` reads one. Upstream.Relay
--              is SseRelay: `poll_next` is a step on its state, with what the upstream answers and
--              the time as arguments; `drop_relay` is Drop. Upstream.Scanner.Runs has the loops of
--              the scanner without fuel, as relations.
-- Limits       src/limits.rs: `RateLimitStore` with its windows; proofs in Limits.Windows,
--              Limits.Admission and, about calls for several keys, Limits.Isolated. Limits.Atomic
--              is `TpmCounter::add` when threads run it at the same time, an access as a step.
-- Budget       src/budget.rs: `BudgetLedger`, its check, snapshot and flush; proofs in
--              Budget.Accounting and Budget.Snapshot. Budget.Display, as Limits.Display, has the
--              texts of rejections.
-- Metrics      src/metrics.rs: the labelled counters, escaping and rendering; proofs in Metrics.Labels.
--              Metrics.Reader reads the rendered text back, line by line, and Metrics.Numbers its
--              numbers, which Metrics.Digits finds inside a text; Metrics.Recorded is about the text
--              after any calls of the handle, and Metrics.Tokens about the token counters of a key.
--              Metrics.Scraped takes the lines of requests apart and unescapes their values.
--              Metrics.Sorted and Metrics.Interleaved are about recordings in another order. Metrics.Atomic is
--              `LabeledCounters::add` when threads run it at the same time: the look-up under the
--              read lock, the insertion under the write lock, and the `fetch_add` are steps.
-- Server       src/server.rs: `from_config`, `list_models` and the accounting of responses, on a state
--              that holds those of the other parts; Server.Handler is `chat_completions`, with its
--              loop `forward`. The task that accounts for a stream is `account_stream`, given what the
--              channel of the relay holds when it is dropped. Server.Routes is `build_router`: the
--              routes, the extractors and the handlers behind them. Proofs are in Server.Boot, Server.Retries,
--              Server.Outcomes, Server.Handled, Server.Accounts, Server.Keeps, Server.Models and, about
--              other API keys, Server.Opaque. Server.Messages has the bodies of the error responses.
--              Server.Tasks has requests that are served at the same time: a task is where a request
--              stands between two awaits, and a step resumes one task on the shared state, whichever
--              the scheduler, the backends and the clients choose. Its proofs are below it.
-- Main         src/main.rs: loading, the state, the application and the listener, with the ways in
--              which the start fails; proofs in Main.Safety.
-- Tests        a small gateway on which the results are applied.
--
-- A value of u64 is a native number, and each `fetch_add` and `+` of the source that can pass 2^64 is
-- written with `% u64_mod`. A map of the source is an association list in which an insertion replaces
-- the value of its key. State is passed explicitly, and an operation of a component is one step of it.
-- That holds for what runs under one lock or makes one access; elsewhere it is a coarser view than the
-- threads of the source have. A step of Server.Tasks is all that a handler does from one await to the
-- next, although the runtime has several threads, which may come in between the calls of such a segment,
-- as between `record` of the ledger, `record_tokens` and `record_tpm`. Limits.Atomic and Metrics.Atomic
-- take `TpmCounter::add` and `LabeledCounters::add` apart; `counters_for` and `tpm_counter` look up, insert
-- and return a shared counter as `get_or_create` does, and are whole steps here, as are the several
-- loads of a snapshot. Accesses come in the order in which a thread makes them, although `Relaxed` would
-- let those of different atomics be seen in another.
-- The loops of the scanner are recursion on fuel: the length of the buffer, and one more where a last
-- round is taken at the end, since each round advances by a byte at least. The results on streams hold
-- for this fuel, so it is enough there.
--
-- Parameters: the TOML and socket address parsers, the environment, the file system, serde_json on a
-- usage envelope, on a request, on a body and on a snapshot, the clock and the noise of a wait, the
-- governor crate, the sleep of the relay, the building of the HTTP client, the binding of the
-- listener, and f64, whose `total_cmp` is assumed to be a total order where a theorem says so.
--
-- `chat_completions` runs a request from its start to its response, with the requests sent as part of
-- the result, at one time: the check of the rate, the deadline of the relay and the window of the tokens
-- are at the time of its start, whatever it waits in between. In Server.Tasks each step has its own time.
-- The attempts of `chat_completions` are recursion on how many are left, which is six at first. In
-- Server.Tasks the same handler is cut at its awaits, and requests interleave there in any order. The wait
-- before an attempt and the attempt itself are one step, since nothing shared changes between them; the
-- spawned task of a stream is one step from the summary to its end. Upstream.Client is `open_sse`, which
-- takes the sending of a request as an argument.
--
-- Not modelled: sending over HTTP, the matching of a request against the routes, the writing of the
-- responses as JSON, the texts of the errors of loading and of the relay, logging, the serving loop and
-- the shutdown.
pub mod Common
pub mod Config
pub mod Router
pub mod Auth
pub mod Upstream
pub mod Limits
pub mod Budget
pub mod Metrics
pub mod Server
pub mod Main
mod Tests
