-- ===== src/Lib.antt =====
-- A verification library of wha, the wallbox home automation: it charges an electric car from solar
-- surplus by way of evcc, an energy manager that it talks to over MQTT.
--
-- The program's parts. `internal/evcc` keeps the latest value of each metric that evcc reports, and
-- publishes the charge mode and the limit. `internal/controller` decides: every 15 seconds a tick
-- takes a snapshot of those values, makes `Inputs` of it, runs the pure policy `Decide`, publishes
-- what changed, accounts for the charge session and writes a sample. The web layer changes the
-- controller's settings between and during ticks, shows its state, and lists what the store holds.
-- `internal/store` keeps settings, sessions, events and samples in SQLite. `internal/updater` finds
-- the newest released version in a registry and asks a sidecar, over files that they share, to
-- install it. `internal/config` is the configuration and its validation.
--
-- Which file models what:
--   Base               natural numbers, Boolean tests, 64-bit integers (Base/Int: Go's truncating
--                      division, wrap-around by `int64`), maps as association lists (Base/Dict)
--   Go                 what the code uses of Go: float64 as an interface (Go/Float), time.Time and
--                      time.Duration in nanoseconds (Go/Time), strings (Go/Strings, and its Parts
--                      for splitting and trimming), strconv, results
--   Config             internal/config/config.go: the structs and `Default`; Config/Validate is
--                      `Config.Validate`, Config/Valid says what it accepts, Config/Load is `Load`
--   Evcc               internal/evcc: Topics (`NewTopics`), Store (`Store.Apply`, `setFloat`,
--                      `setBool`), Client (`publish`, `SetMode`, `SetLimitSoC`, the callbacks)
--   Store              the rows of internal/store; Store/Tables is what sessions.go, events.go,
--                      samples.go and settings.go do to them, as an instance of Recorder, and
--                      Store/Listing `RecentSessions`, `RecentEvents` and `Samples`;
--                      Store/Columns is the columns of charge_sessions and `scanSession`
--   Controller/State   internal/controller/state.go
--   Controller/Policy  internal/controller/policy.go, a definition for each function, and for the
--                      parts of `Decide`; histories of ticks are in Controller/Policy/History, and
--                      the proofs over them in Sustain, Subside, Begin and Latch beside it
--   Controller/Inputs  internal/controller/inputs.go, `InputsFromSnapshot`
--   Controller/Recorder    the interfaces `Recorder` and `Commander` of controller.go
--   Controller/Loop        controller.go: the state (Struct), `tick` as `plan`, `commit` and `act`,
--                      `publishMode` and `publishLimitSoC` (Publish), `trackSession` (Session)
--   Controller/Settings    controller.go: the setters, the loads and `prune` (Startup), `Status`
--   Controller/System      controller.go as it runs: ticks in three steps, interleaved with the
--                      setters and the janitor, and what is reachable
--   Updater            internal/updater/updater.go: Version (`semverRe`, `compareSemver`, `newer`,
--                      `maxSemver`), Registry (`fetchPullToken`, `fetchTags`, `nextLink`,
--                      `latestSemver`), Files (`readStatus`, `writeFileAtomic`), `Check`, `Info` and
--                      `Trigger`, and Whole, which puts them together
--   Web/I18n           internal/web/i18n/bundle.go: the lookups, `Match` and `Resolve`
--   Web/Views          internal/web/dto.go: `newStatusVM`, `newSessionVM`, `newUpdateVM`
--   Web/Reply          what a handler answers, the store it lists, `errorHandler`, `langMiddleware`
--   Web/Pages, Commands, History, Language, Updates, Setup     internal/web/handlers.go, sw.go and
--                      setup.go: the pages and lists, the POST handlers that set something, the
--                      history, the switch of the language, the update handlers, the certificate
--   App                internal/app/app.go and cmd/wha/main.go: the start up to the control loop
--   Controller/Memory      a small database for the runs of the tests
--
-- How state and operations correspond: an operation takes the controller and the database state and
-- returns both, with the commands it sent, in order. A method of evcc's store, which holds its lock
-- throughout, is one step. A tick is three steps, since the lock is free between its two locked
-- sections and after them; `commit` reads the settings that it finds then, not those it planned by.
-- A handler takes the parsed body and parameters of its request with the state it works on, and
-- returns the state and a `Reply`; the POST handlers go through `serve`, the same setters that
-- Controller/System interleaves with the ticks, so what holds of its reachable states holds with the
-- web layer in front. A run of `writeFileAtomic` also gives the file systems between its calls.
-- A setter is one step there, although it holds the lock only for its reads and writes of the
-- controller; Controller/System/Overlap takes `SetChargePower` apart into its steps, for calls that
-- overlap with one another. Controller/System/Told follows, through a run from the start, what evcc
-- was last told by the commands that it accepted. The janitor's step is possible there whatever the
-- retention window is, while `Run` starts the janitor only for a positive one.
--
-- What is a parameter. The type W of float64 values, with the operations of Go.Float: theorems hold
-- for every rounding; a few need the laws IsOrdered of the comparisons, and say so. The type D of
-- database states with the interface Recorder, whose calls may fail at any time; the restart
-- theorems need the laws KeepsSettings: a setting that was written is read back, unless the read
-- fails; the one on thresholds needs that the text of the threshold reads as itself. Store/Tables
-- proves the laws of its tables, whose statements fail only where the code makes an error of the
-- rows affected. The answers of the commander and of the registry, by the URL that is asked for; the
-- decoding and encoding of JSON; what the calls on files return, and what a failing write leaves;
-- the parsing of URLs and the parsing and formatting of times; Sprintf; the viper library with the
-- files and the environment that it reads. Times are arguments; where a
-- theorem needs a time other than the zero time, it says so.
--
-- Bounds and fuel. An int is 64 bits wide, and additions of the source go through `int64`; the
-- theorems on limits show that it does not wrap within valid configurations. `Time.Sub` saturates as
-- in Go. `itoa` has 20 digits of fuel, enough for 64 bits. The loop over the pages of the registry
-- has the 100 rounds that the source allows. A listing of samples has at most 50000 rows, and the
-- window of the history at most seven days, as in the source. Everything else is structural
-- recursion.
--
-- Not modelled: logging, contexts, the ticker and the goroutines' start; the MQTT client and SQLite
-- (evcc's `Connect`, the opening and migration of the store, the layout of its timestamps, and the
-- scanning of events and samples), since they are calls of libraries; of internal/web the parsing of requests, the routes, the templates with their
-- functions and the headers, which belong to fiber and html/template; of internal/app the
-- logger, the shutdown, and the start of the web server and of the first check for updates. `strings.ToLower` maps the ASCII letters alone, which no supported
-- language needs more than.
-- Monotonic clock readings and time zones are left out of a Time.
pub mod Base
pub mod Go
pub mod Config
pub mod Evcc
pub mod Store
pub mod Controller
pub mod Updater
pub mod Web
pub mod App
