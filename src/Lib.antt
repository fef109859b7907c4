-- ===== src/Lib.antt =====
-- Verification of the bank system: payments come from Fio bank, are categorized and matched to
-- the members of the union, and count as dues for months; administrators correct the matches,
-- write off months, keep the rules and categories, and plan the budget of a year in lines, which
-- categories feed. The Go code under internal/ is modelled as functions on the tables of its
-- database.
--
-- The parts and their files:
-- - Base, Calendar, CategoryId: shared names, signed numbers, rows of tables (Base.Changes and
--   Base.Rewrites: what rewriting and removing rows keeps); dates, the default covered month and
--   month indices (internal/processing/processing.go, internal/handler/waivers.go); the constants
--   of internal/categoryid/categoryid.go.
-- - Store: the tables (Store.Schema, after migrations/ and internal/db/models.go), sessions and
--   transactions (Store.Monad), and the statements of internal/db/queries.sql.go by the tables
--   they are about: Store.Transactions, Store.Members, Store.Rules, Store.Waivers, Store.Syncs,
--   Store.OrcaSyncs, Store.Budgets, Store.LineCategories, Store.Categories. Store.Effects,
--   Store.Reads and Store.Leads hold the rules to reason about blocks of statements: what changes
--   nothing, what a calm session does, and pre- and postconditions.
-- - Sync: internal/syncjob/fio.go, which stores what Fio sends: insertTransactions is
--   insert_transactions, syncAccount is sync_account, SyncOneAccount is sync_one_account,
--   RunFioSync is run_fio_sync. Sync.Cursor is about the cursor that Fio keeps. Sync.Orca is
--   RunOrcaSync of internal/syncjob/orca.go, with the conversion of an answer of
--   internal/orca/client.go, Sync.Columns the reading of an answer of Fio in internal/fio/types.go
--   (Transactions is transactions), and Sync.Stale is FailStaleRuns of
--   internal/syncjob/reconcile.go.
-- - Processing: internal/processing/processing.go. Run is run, processOne is process_one,
--   categorize, applyRule and matchesPattern keep their names; ReapplyRule and writeOutcome are in
--   Processing.Reapply.
-- - Auth: internal/handler/auth.go and the role check of internal/keycloak/keycloak.go.
--   RequireRole, RequireAnyRole and RequireAuth are require_role, require_any_role and
--   require_auth; verifying a token is the parameter verify.
-- - Handler: internal/handler. WaivePayment and UnwaivePayment (waivers.go) are in
--   Handler.Waivers, AssignTransaction, UnassignTransaction and GetTransaction (transactions.go)
--   in Handler.Assignment. The handlers of rules.go are in Handler.Rules, those of categories.go
--   in Handler.Categories, and those of budgets.go in Handler.Budgets (budgets and reports) and
--   Handler.BudgetLines (lines and their categories), with the reading of a request in
--   Handler.BudgetText and Handler.BudgetRequest; there handle_ goes before the name of a handler.
--   Their modules Requests serve lists of requests, by the routes of cmd/server/main.go.
--   Handler.Audit is AuditLog of audit.go, around a route behind RequireRole.
-- - Scheduler: nextRun of internal/scheduler/scheduler.go, in any local zone.
--
-- Sync fills the raw transactions and the members, Processing reads the transactions that have
-- no processed transaction and adds one for each, with a coverage row for a matched member;
-- Handler.Assignment rewrites both by hand and marks the row, and Processing.Reapply, which
-- Handler.Rules calls, rewrites rows without that mark. Handler.Waivers adds and removes waivers
-- next to the coverage; the missing-payment query of Store.Waivers reads both. Handler.Budgets,
-- Handler.BudgetLines and Handler.Categories write the tables of budgets and categories.
--
-- State and errors. An action takes a session, the database with a list of faults, and gives a
-- result and the session after it. The fault list says for each coming statement, BEGIN and
-- COMMIT whether it fails for a reason outside the program; a theorem for every session
-- therefore covers every pattern of failures, and one for a calm session the runs without any. A
-- statement that fails changes nothing; a transaction that does not commit restores the tables.
-- A failed COMMIT is taken to have rolled back. Error texts and log lines are not modelled, only
-- which kind of error there is.
--
-- Tables are lists of rows in the order of their ids, oldest first. One number, next_id, serves
-- the id columns of all tables, except that a category has the id that the database makes up.
-- Unique constraints are modelled where a statement can meet them (a raw transaction is
-- processed once, a year has one budget, the names of categories differ; ON CONFLICT DO NOTHING
-- and DO UPDATE). Foreign keys are modelled only where they cascade and where they refuse the
-- deletion of a category; CHECK constraints are not. Statements of other clients between two
-- statements of a block are not modelled, nor is the isolation of transactions that run at the
-- same time.
--
-- Parameters stand for code outside the repository: the lower case of a character (lower),
-- strings.TrimSpace (trim), the year of time.Now (max_year and year), time.Parse (parse,
-- parse_date), the reading of a UUID (parse_uuid), strconv.Itoa (itoa), the order of texts in
-- the database (name_before), the id of a new category (uuid), the formatting of a float amount
-- (format_amount), encoding/json on a column (Parsing), the rules of the local zone (Zone), the
-- server of Fio (FioClient). The amount of a budget line is kept in hundredths. The ids that Fio
-- sends are whole numbers where they are read, and the synchronisation is modelled for those
-- that are not negative. Reading JSON and path values is outside too: a handler takes what was
-- read, or none. A panic and its recovery are not modelled. No definition runs on fuel: loops
-- are recursion over lists, or over the number of months of a range.
--
-- Not modelled: GetBudget, which adds up the transactions of a year, and the other listings and
-- statistics with their filters and pages; the maintenance of bank accounts and the backfill of
-- one; the listing of the audit log; the HTTP requests to Fio and Orca; the missing-payment
-- handlers around their query; configuration, start-up and shutdown, the HTTP wrapping, the user
-- interface and test data.
pub mod Base
pub mod Calendar
pub mod CategoryId
pub mod Store
pub mod Processing
pub mod Handler
pub mod Auth
pub mod Sync
pub mod Scheduler
