-- ===== src/Lib.antt =====
-- A model of the server of go-vault, an end-to-end encrypted password manager, and theorems on it.
--
-- A request comes through the router and its middleware (internal/api/router.go, middleware.go) to a
-- handler (internal/api/handlers.go, handlers_phase5.go). Handlers ask the session manager and its
-- limiters (internal/auth), call the repositories (internal/storage over the statements of
-- internal/storage/sqlcgen), derive hashes (internal/crypto), check second factors (internal/mfa),
-- and append to the audit log, which raises alerts (internal/audit).
--
-- - Prelude: Boolean tests, lists, maps and signed durations that all parts share. Errors: the error
--   values, and results. Primitives: what is taken from elsewhere (hashes, Argon2id, HKDF,
--   XChaCha20-Poly1305, base64 and base32, JSON, Unicode, TOTP, addresses), as the fields of one record
--   that is a parameter.
-- - Auth: RateLimiter (ratelimit.go), Lockout (lockout.go), Manager and Session (session.go).
-- - Storage: Db is the database as a record of tables with a monad of statements. Users, Sessions,
--   Items, Mfa and Audit have one function per statement of sqlcgen, with the columns' UNIQUE, CHECK
--   and foreign-key constraints, and one per method of the repository. Keeps and Closed carry a
--   property of the tables from the statements to the repositories; Sound is the constraints of
--   db/schema.sql as such a property, and Absent a user id that is in use no more.
-- - Crypto: Kdf (crypto.go), Keys and Text (keys.go), Aead (aead.go), Item (item.go, totp_wrap.go).
-- - Mfa (internal/mfa/totp.go) and Alerts (internal/audit/alert.go).
-- - Api: Server is the state of the process and a monad of handlers, which go on or stop with a response.
--   Reply (audit.go, cookies.go), Register, Login, Account, TwoFactor, Vault and Activity are the
--   handlers; Router has the endpoints, the middleware of each, and `serve`. Http is what is used of
--   net/http's response writer, and Global the middleware around all routes. Docs is the two routes
--   of the API docs. Keeps carries a property of the tables to the handlers, and Router.History to
--   any sequence of requests, failures, restarts and lapses of time.
-- - Config (internal/config/config.go): Load, from the environment to the settings.
-- - Startup (cmd/server/main.go): a run of the server, as the list of its events.
-- - Wasm (cmd/wasm/main.go): the client's functions over Crypto, and the password generator.
-- - Tests: the theorems at concrete inputs.
--
-- Go's names are written in snake case: PostLogin is post_login, Manager.ValidateAccess is
-- Auth.Session.validate_access. A handler that is long is cut where its code branches on a result.
--
-- A statement may fail at any time, by the oracle `outage` of the database; random bytes come
-- from the oracle `entropy`, which may fail too. Times are in nanoseconds, one clock reading per
-- request; the lifetimes of tokens are signed, and a session may have expired when it is made.
-- Loops are recursion on a list or on the rounds left. The password generator has fuel for its
-- rounds: every number of rounds is enough whose buffers have enough bytes that are accepted. The
-- client that walks the pages of its log has a number of pages: any that is above the number of
-- events is enough. int64 parsing keeps its wrap-around; revisions keep the range of INTEGER.
-- Each call on a limiter, a lockout or a tracker is one step, as their mutexes make it.
--
-- Not modelled: JSON decoding (handlers take the decoded body, or its failure), net/http's
-- multiplexer and the informational responses that it sends before the final one, the page
-- template of the API docs, the text of log lines and errors, the connection pool beyond its
-- opening, cmd/sri (I/O), the generated types of internal/api/gen, and the web client.
pub mod Prelude
pub mod Errors
pub mod Primitives
pub mod Auth
pub mod Storage
pub mod Crypto
pub mod Mfa
pub mod Alerts
pub mod Api
pub mod Wasm
pub mod Config
pub mod Startup
pub mod Tests
