-- ===== src/Lib.antt =====
-- FileSync, a file server with accounts, sharing and a small business back office, in Go.
--
-- The program is a set of HTTP services over SQL tables. This library models the business service
-- (internal/biz), which keeps orders and refunds, support tickets, resources with an access policy,
-- service orders, and roles with permissions; the part of the authentication service
-- (internal/auth) that exchanges authorization codes, and issues, rotates and revokes pairs of tokens over the sessions and the
-- blacklist of the store (internal/store/oauth_repo.go); and of the file service the files with their
-- trash, the objects that hold their contents, the routing between storage backends, and the plan of
-- a direct upload. The business services meet in the request of a service
-- order, which reads the order that pays for it and the permissions of the caller.
--
-- Which file models which part:
--   Prelude           names of the libraries, tests on numbers and strings, sums, integers
--   Sql/Table         a table with an AUTOINCREMENT key: its rows behind their keys, and the highest
--                     key given out; SELECT, INSERT, UPDATE and DELETE by key
--   Sql/Listing       WHERE, ORDER BY id and LIMIT; DELETE by a condition
--   Sql/Where         the optional conditions of a WHERE clause
--   Sql/Exec          actions: statements one after another, errors as values, transactions, the
--                     clock and random numbers
--   Sql/Steady, Keeps, Ensures, Refuses
--                     rules on actions, one for each way to build an action: what they leave of the
--                     driver, which predicates of the tables they keep, bring about, or stop at
--   Biz/Order         internal/biz/order.go and the refund request of handler_order.go
--                     (Filed: the row of a refund; Again: requests one after another)
--   Biz/Ticket        internal/biz/ticket.go and the list of handler_ticket.go
--   Biz/Resource      internal/biz/resource.go
--   Biz/Service       internal/biz/service.go
--   Biz/Rbac          internal/biz/rbac.go
--   Auth/Tokens       internal/auth/token_rotate.go and its stores in internal/store/oauth_repo.go
--                     (Sessions: the tables; Manager: claims and cookies; Ops: the methods)
--   Sql/Rows, Within  tables as lists of rows; an action on one part of the state
--   Sql/Leads, Learns rules from what holds before an action and what it has read to what holds after
--   Storage/Backend   the interface of internal/storage/storage.go and the laws of a backend
--   Storage/Local     internal/storage/local.go, the operations on finished files
--   Storage/Router    internal/storage/router.go
--   Storage/Pair      two backends side by side, to have two that share nothing
--   Storage/Queue     internal/storage/transcode_queue.go: the queue and the turns of its worker
--   Files/Defs        FileRecord of internal/model/model.go, callers and spaces
--   Files/Rows, Ops, Trash
--                     internal/store/file_repo.go and internal/store/trash_repo.go
--   Files/Like        escapeLikePrefix and the LIKE of SQL
--   Files/Paths       normalizeDirPath of internal/handler/file.go and validateFilePath of
--                     internal/handler/upload_util.go
--   Files/Handlers    internal/handler/file_delete.go, trash.go, upload_check.go, file_text.go,
--                     file_dir.go and pat_quota.go, and the cleaning of the trash in
--                     cmd/server/main.go
--   Files/Backed      the rows and the objects they refer to, over all these handlers
--   Files/Sharing, Restore
--                     an edit of a shared object; the way into the trash and back
--   Auth/Codes        the authorization codes of internal/auth/oauth2.go and oauth_repo.go
--   Storage/Parts     CalculatePartSize of internal/storage/storage.go and the loop over the parts
--                     of internal/handler/upload_init.go
--
-- A function of the Go code has the same name here in snake case (`CreateRefund` is `create_refund`)
-- and is an action: a function of a connection that gives a result or an error and the connection
-- afterwards. A connection holds the tables, and the choices of the environment: whether the n-th
-- statement fails, what the clock shows at the n-th moment and which random text is drawn then.
-- `now()` and a number generator draw a moment as a statement does. A theorem that says nothing of
-- the driver holds for every pattern of failures; `calm` is a connection that never fails. A
-- statement that fails has no effect, and an error that the code drops (`_ =`) is dropped by
-- `ignore`. A transaction that does not commit leaves the tables as they were. The loops are those
-- over rows, over the number of parts and over the characters of a text, so that no fuel is needed;
-- the loop of normalizeDirPath has the length of the text as its fuel, and ends within it, since each
-- round shortens the text.
--
-- A handler of files acts on the tables, on the set of names in Redis and on the storage, whose state
-- is a part of the connection. The storage is any backend with the laws of Storage/Backend; that of
-- the server is the router in front of a local backend and another one that share nothing. A new
-- file gets a random id: its path is assumed to be unused. A path of S3 is treated as the backend of
-- S3 lets it be; nothing is assumed of that backend but the laws. The disk of the local backend is a
-- map from paths to contents; a write that fails leaves the part that it wrote. The base path of the
-- local backend is in the form that filepath.Join leaves. Two texts are compared character by
-- character under LIKE, by a relation that is a parameter, since SQLite folds the case of letters. A
-- request is one step: what two requests do to each other between their statements is not shown for
-- files.
--
-- The rows of files are tied to their objects under two conditions, which hold of the rows that the
-- server writes: the path of a row is written with the prefix of its backend, and the object is
-- there. Old rows without a prefix are read as local files, and are outside that invariant. The
-- requests it speaks of are the constructors of `Step` in Files/Backed/Reach: uploads, saved shares
-- and the writes of agents are not among them.
--
-- Times are whole seconds, as the stored texts are (nanoseconds in the queue of the transcoder);
-- amounts of money are integers without the wrap-around of int64, while the plan of an upload, which
-- takes any declared size, wraps around as int64 does; a key is a natural number. Constraints UNIQUE and PRIMARY KEY are modelled where an INSERT
-- can violate them. SQLite keeps one connection (`SetMaxOpenConns(1)`), so that statements run one
-- after another; two requests interleave between statements, which Auth/Tokens/Race states for the
-- rotation of a session.
--
-- Parameters, of which nothing is assumed: the JWT library (signing, decoding and the validation of
-- times), the lookup of a user, the format of a date, the digests of a content and of a verifier, the collation of LIKE;
-- the names of directories are normalised, and file names tested, before the tables are read.
-- Of container/heap the queue assumes that it keeps the requests, and that Pop after Init takes a
-- first one.
--
-- Not modelled: the S3 client, chunks and their assembly (an assembled file of no chunks is an empty
-- write), upload sessions, empty directories of local files, listings of one directory and of videos,
-- transcoding itself with its jobs, shares, spaces, OAuth clients and SSO, agents, the web and desktop clients; queries
-- that only compute statistics, but for those of orders; the encoding of HTTP requests. The deletion
-- of a user, which also deletes sessions, is not among the calls that follow a rotation.
pub mod Prelude
pub mod Sql
pub mod Biz
pub mod Auth
pub mod Storage
pub mod Files
