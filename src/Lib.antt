-- ===== src/Lib.antt =====
-- OCM, a campus management backend in Go: classrooms and their bookings, course sessions, bell-time
-- regimes, repair tickets, attendance, devices, permissions.
--
-- Parts and files. A file of a component holds its definitions; the files below it hold its theorems,
-- and Examples.antt there the theorems at concrete inputs and the tests.
--
-- Occupancy: backend/internal/booking/store.go and handler.go, and the session half of
--   backend/internal/course/sessions.go. Model has the rows of the shared tables and the conflict
--   checks (conflicts, sessionConflict). Bookings has Create, Cancel, Review, GetByID; Sessions has
--   CreateSession, UpdateSession, DeleteSession, GetSession; Handler has validateBooking and the
--   writing handlers. Rows and Moves relate rows, Disjoint is the invariant, History the sequences of
--   calls.
-- Schedule: ActiveFor and PeriodIndexSet of backend/internal/schedule/store.go. The booking handler
--   asks it which periods ring on a date.
-- Authz and Iam: backend/internal/authz/authz.go (Subject.Has and the middlewares) and
--   backend/internal/iam/effective.go (Effective), which fills a subject's permissions.
-- Import: backend/internal/importer/jwc, the split of the academic office's weekly plan. Cells and Dates
--   are expand.go, Classes is teaching.go, Groups, Records, Regimes and Split are split.go over the rows
--   of parse.go. Numerals, Print, Named, Weeks, Names, Parallel, Slots, InForce and Sessions have the
--   theorems. The plan's dates are checked against Schedule. Dates has the integers of 64 bits of a week's date, which wrap
--   around, in Go's time values as well. A loop over a map goes in an order that is an argument where the
--   result depends on it.
-- Jobs: backend/internal/importer/store.go and handler.go, the import jobs. Workers has the requests and
--   the goroutines that analyze and commit a job, as tasks whose writes interleave in any order; Rows,
--   Single, Once, Progress and Settled have the theorems. What an importer reports is an argument.
-- Buffer: iot/mqttc/queue.go, the queue of frames on the device side, with its file. Waiting compares
--   it with a ledger of all frames, Flow is what a drain sends, Recovery what a new start finds,
--   Oversize a frame that is too long.
-- Repair: backend/internal/classroom/repair_store.go and repair_handler.go.
-- Attendance: backend/internal/attendance/store.go, store_records.go and handler.go:
--   the counts of a checkin; Writes has CloseCheckin, ScanByCode and UpsertRecord, Create has
--   CreateCheckin. A scan has the tables of its transaction apart from those that the rollback leaves.
--   Rows and History are the tables
--   under any sequence of calls, Refusal the answers of a scan, Codes the six digits, Totals the counts.
-- Iot: the device plane. Topic and Segments are backend/internal/iot/mqtt/topic.go, Registry and
--   Commands are backend/internal/iot/store.go, Consumer is backend/internal/iot/mqtt/consumer.go.
--   Devices, Claims and Isolation are what messages and operators do to devices, Lifecycle what becomes
--   of a command, Deadline its time to live.
-- Calendar: time.Parse and Format with the layout 2006-01-02, as the code uses them; Days is
--   AddDate and Weekday.
-- Http: the answers of backend/internal/httpx/respond.go.
-- Prelude: shared names, lists and tables, Go's error returns, texts, signed integers.
--
-- How state is modelled. A table is the list of its rows, newest first, and a call takes and returns
-- the database. An SQL statement is the function on lists that its text denotes. A statement may fail
-- for reasons outside the program: a call is given its faults, one truth value for each statement in
-- order. A failed transaction leaves the database as it was; a failed commit is taken to have done
-- nothing. A transaction that holds the row lock of a classroom is one step. A call that takes no lock
-- is given the databases that its reads saw apart from the one that its UPDATE meets, so that a theorem
-- over all of them speaks of every interleaving; the read that builds the answer is of the database
-- that the write leaves.
--
-- Values. Ids, times and dates are native numbers (identity columns start at 1; a DATE is yyyymmdd in
-- the tables), decoded integers are signed until the validation has passed, texts are lists of code
-- points, and a set or a map of truth values is the list of its keys. No arithmetic in the modelled
-- code comes near the bounds of its integers except where a file says so. Every loop is recursion on a
-- list or on the number of rounds, with no fuel. JSON decoding and path parsing are arguments, as the
-- result that they gave.
--
-- The JSON of a queued frame is an argument, with a hypothesis that what was encoded is read back.
-- Sorting is insertion sort, where the code's sort leaves the order of equal elements open.
--
-- Not modelled: the importers, reading and writing spreadsheets, schema creation, list and page
-- queries, exports, the audit log, the MQTT client around the queue, the web and mini program clients.
pub mod Prelude
pub mod Buffer
pub mod Calendar
pub mod Import
pub mod Schedule
pub mod Repair
pub mod Http
pub mod Authz
pub mod Iam
pub mod Jobs
pub mod Occupancy
pub mod Attendance
pub mod Iot
