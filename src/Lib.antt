-- ===== src/Lib.antt =====
-- A self-hosted waiting list service in Go: users sign up to a project, wait, and are let in by a
-- scheduler or by an administrator.
--
-- The program's parts, and the files that model them (paths from the repository's root):
--   * Model, Model/Clock: internal/model/model.go, the records and sentinel errors. An instant is a
--     number of nanoseconds since Go's zero time; `since` is time.Since with its saturation.
--   * Store: the tables of migrations/sqlite/001_init.sql, and the world that a call runs in. A world
--     holds the coming answers of the driver and the mail server (an error or not), the readings of
--     the clock, the identifiers that will be drawn, and the mails sent. Store/Monad has repository
--     methods, Store/Action handlers and transactions: the body runs on the tables, and they are put
--     back where it does not commit. Store/Keeps, Store/Ensures and Store/Transactions have the rules
--     by which properties of composed actions follow from those of their parts.
--   * Sqlite/Users (and Lists below it), Sqlite/Waiting (and Joins below it), Sqlite/Scheduler:
--     internal/repository/sqlite/{user,waitinglist,scheduler}.go, one function for each method, named
--     as it is. Sqlite/Rows has the clauses of SQL: ORDER BY is a stable sort, LIMIT and OFFSET, LIKE,
--     IN. A method that passes the database itself to its form with a transaction (GrantAccess,
--     RevokeAccess, DeleteByID, ...) is that form.
--   * Postgres/Users (and Lists below it), Postgres/Waiting (and Joins below it), Postgres/Scheduler:
--     internal/repository/postgres/{user,waitinglist,scheduler}.go, in the same way, over the schema of
--     migrations/postgres/001_init.sql. Postgres/Server is the server as far as the statements leave it
--     open: how it reads texts as uuid and inet, compares texts, folds case, and in which order it
--     meets the rows; IsServer has what its documentation promises of that. NOW() is a parameter.
--   * Repository: the interfaces of cmd/server/main.go, as a record of the methods. Handlers and tasks
--     take it as an instance. Repository/Contract is what they rely on: which methods only ask, and
--     what the others have done where they succeed. OverSqlite and OverPostgres fill it, Agreement has
--     where the two databases answer alike. A database reads an identifier as a key (Repository/Keys):
--     SQLite any text as itself, PostgreSQL a uuid as its canonical text.
--   * Notifier: internal/notifier, who is sent which mail with which data.
--   * Http/Types, Http/Net, Http/Tenant, Http/Auth: internal/handler/{response,ip,tenant,middleware,
--     health}.go. Http/Enlist: waitinglist.go there, the public routes. Http/Admin: admin.go, with
--     its parameters in Params, the pages in Lists, grants, revocations and removals in Access, and
--     the digest that is sent at once in Digest.
--   * Waitlist/Scheduler, Waitlist/Digest: internal/waitlist/{waitlist,digest}.go, the periodic tasks.
--   * Config/Projects, Config/Load: internal/config/config.go. Startup joins it to the resolver as
--     cmd/server/main.go does.
--   * Invariant: what holds of the tables between any two calls, and that the repositories keep it.
--   * Machine: requests and tasks in any order, each on the tables that the ones before left. History
--     follows a user through a course, Tenants the rows of the other projects, Databases a course over
--     PostgreSQL.
--   * Tests: the theorems at concrete inputs.
--
-- A handler is a function from a request and a world to a response and a world, split at each call
-- that can fail: `on_x` goes on from the answer of the call x. Where a handler returns early, the
-- helper answers at once. The loops run over lists, so they need no fuel; the endless loop of the
-- scheduler is modelled by the number of times that it comes round, whatever that is. Machine has no
-- bound on the number of steps either.
--
-- Code that is not in the repository is a parameter: the cron parser and the file test (`parses`,
-- `accessible`), bcrypt (`matches_hash`), time.ParseDuration (`parse_duration`). net.SplitHostPort,
-- strings.TrimSpace, strings.Contains and strconv.Atoi are written out for the inputs that the code
-- gives them. Of net/http and encoding/json the model takes a request as it has been decoded.
--
-- A PostgreSQL session is taken to be in UTC, and texts to hold no NUL. NOW() of a method may be any
-- instant, which may stay (in a transaction) or pass from one method to the next.
--
-- A weighted time is kept exactly where rows are ordered by it. As a field of an entry an instant before
-- Go's zero time, which takes a weight of millions of hours, counts as the zero time: time.Since is at
-- its bound for both.
--
-- Not modelled: the parsing of stored times, templates, MIME, and the SMTP dialogue before a
-- mail is taken or refused, reading of files and environment, the lock of the resolver, logging but for
-- the request line, the admin page, and the server's start and shutdown. Of a request or a task that others
-- interrupt only the scheduler's is modelled, whose reads stand outside its transaction
-- (Waitlist/Scheduler/Gathering, Machine/Interleaving); elsewhere each call sees the tables that the
-- one before left.
pub mod Prelude
pub mod Model
pub mod Notifier
pub mod Store
pub mod Sqlite
pub mod Postgres
pub mod Repository
pub mod Http
pub mod Invariant
pub mod Waitlist
pub mod Config
pub mod Machine
pub mod Startup
pub mod Tests
