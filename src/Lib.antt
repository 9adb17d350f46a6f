-- ===== src/Lib.antt =====
-- research_monitor: the core of the research monitor, a Go service that fetches papers from arXiv,
-- downloads their PDF files, and extracts their text in the background.
--
-- The parts and how they interact. A fetch (`Arxiv`) reads entries from a feed, saves each in the
-- catalogue of papers (`Paper`) and gives those that are new to the registry of download jobs
-- (`Download`). A job has one worker goroutine, which asks the store of PDF files (`Pdf`) for each
-- paper and tells every subscribed client of each result through its channel. Apart from that,
-- clients submit documents for extraction (`Extraction`): the repository keeps one row for each
-- source, and a single background worker takes pending rows, runs an extractor, normalises its
-- markdown and writes the outcome. An analysis (`Analyzer`) sends the body of a finished extraction
-- to an LLM and stores the summaries. A user logs in for a token (`Auth`), which the middleware asks
-- for on every other route; the sources to read are kept by `Sources`; `Http` renders errors.
--
-- The files, with the code they are about:
--   Base, Base.Tests, Base.Lists: shared names, Boolean tests, lists over native numbers.
--   Fault: Go errors, as the sentinels they wrap and their text.
--   Text: what is used of Go's `strings` and of RE2's character classes.
--   Sql: the laws of a table behind GORM, which every repository takes as a parameter;
--     Sql.Keyed: the same with `Save` and `Delete`; Sql.Rows: lemmas on rows.
--   Paper: internal/domain/paper. Paper.Catalogue: internal/infrastructure/persistence/paper
--     (`save`, `find_by_key`, `list`); Paper.Keys: what a save does;
--     Paper.Listing: what a listing shows.
--   Pdf.Key: internal/domain/pdf (`validate`). Pdf.Path, Pdf.Store:
--     internal/infrastructure/pdf/local/store.go (`canonical_path`, `ensure`). Pdf.Confined,
--     Pdf.Publishing: where files stand and what is on the disk.
--   Download: internal/application/pdfdownload. Types (types.go); Stream, one Go channel; Job, the
--     critical sections under a job's mutex (worker.go, service.go); Sanitize and Description
--     (errfields.go); Worker, `runJob` one section at a time; Life, the step relation of worker and
--     clients; Registry, the methods of service.go; FanOut, Delivery, Clients, Progress,
--     Sections, Reachable, Laws and Registry.Sweep, Registry.Reachable: the proofs.
--     Download.Dto, Download.Watching: internal/http/controller/paper (pdfdownload_controller.go
--     and its responses), `status` and the handler of the event stream, turn by turn; the children
--     of Watching are the proofs.
--   Extraction.Types, Lines, Markdown, Normalize: internal/domain/extraction. Row, Repository:
--     internal/infrastructure/persistence/extraction (model.go, repo.go). UseCase, Worker, FilePath:
--     internal/application/extraction (`submit`, `get`, `process`, `notify`, `drain`). Service: the
--     submitters, the wake channel and the goroutine `run`, with the startup of
--     internal/bootstrap/app.go, as a step relation. The children of Repository, UseCase, Worker,
--     Service, Lines and Normalize, and Trip: the proofs.
--   Arxiv: internal/application/arxiv (`fetch`); Arxiv.Fetching and Arxiv.Scheduling: the proofs.
--     Arxiv.Feed: internal/infrastructure/arxiv/parser.go and internal/infrastructure/feedutil.
--     Arxiv.Fetcher: fetcher.go beside it and internal/infrastructure/httpclient. The children of
--     both: the proofs.
--   Analyzer: internal/domain/analyzer and internal/infrastructure/persistence/analyzer (`upsert`,
--     `find_by_id`). Analyzer.UseCase: internal/application/analyzer (`analyze`, `get`). Storing and
--     the children of UseCase: the proofs.
--   Http: internal/domain/shared/errors.go, internal/http/common and the middleware
--     error_envelope.go, recovery.go and request_id.go.
--   Auth.Types: internal/domain/user. Auth.Repository: internal/infrastructure/persistence/user.
--     Auth.Hasher, Auth.Tokens: internal/infrastructure/auth and the middleware jwt_auth.go.
--     Auth.UseCase: internal/application/user_usecase.go. Auth.Controller: auth_controller.go and its
--     routes. Checks, Logins, Passwords, Sound, Sessions, Rotation: the proofs.
--   Sources.Types, Repository, UseCase: internal/domain/source,
--     internal/infrastructure/persistence/source, internal/application/source_usecase.go with the
--     handlers of source_controller.go. Handling with its children, and Races: the proofs.
--   Examples: a table in memory, codecs, and runs at concrete inputs.
--
-- How state is modelled. A mutex is taken for one section at a time: each section is one function,
-- and any other goroutine may run between two. A channel is its capacity and its buffer; a send to
-- or a close of a closed channel is a panic, and a panic is `none`. The jobs of the registry live on
-- a heap, so that a worker keeps a job that has been evicted. A timestamp is a number of
-- nanoseconds. A database statement may fail, and then changes nothing. Readings of the clock,
-- fresh uuids, the answers of the store, the extractor, the fetcher and the operating system, and
-- whether the context is cancelled are arguments.
--
-- Bounds and fuel. The matchers of the sanitiser and the normaliser recurse on the text; the path
-- pattern and the decimal digits take fuel, as many rounds as there are bytes left or as the number
-- says, where each round consumes one or divides by ten. The loop of `drain` takes a list of rounds,
-- one for each turn, and says `unfinished` where the list ends first. The handler of the event
-- stream takes a number of turns, and stops before where it is blocked or has returned.
--
-- What is taken from third parties: the laws of `Table` (Sql.antt) for GORM over SQLite, that its
-- `Create` fills the zero times of a paper (Paper.Catalogue), the JSON
-- codecs of the payload and list columns, uuids, bcrypt and golang-jwt with the laws that are stated
-- beside them, whether `mail.ParseAddress` takes an address and `url.Parse` a URL, the decoders of
-- XML and of times, and what a GET request comes to. The durations in log lines and the texts of
-- wrapped errors are left out. The text of the expiry message, a formatted date, is a parameter.
--
-- What is not modelled: the registry's shutdown and the construction of the store; the
-- handlers of the other routes, the bootstrap but for the signals of its startup, and the
-- MinerU adapter. They are either bindings to libraries or smaller uses of the same
-- patterns.
pub mod Base
pub mod Fault
pub mod Text
pub mod Sql
pub mod Paper
pub mod Pdf
pub mod Download
pub mod Extraction
pub mod Http
pub mod Auth
pub mod Sources
pub mod Analyzer
pub mod Arxiv
pub mod Examples
