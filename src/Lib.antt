-- ===== src/Lib.antt =====
-- min-mcp is a proxy between an MCP client and many upstream tools. This library models the parts of it
-- that decide: which tools a caller sees and may call, how often, where its credentials may go, when a
-- failing tool is left alone, what of a result is shown, and whether the audit log can be trusted.
--
-- The parts, and the files of the repository they model:
--   Visibility    src/config.rs (`Filters`, `Scopes`, `passes_filter`, `upstream_enabled`, `allowed`),
--                 src/caller.rs and the gates `allowed` and `may_call` of src/surface.rs. A call passes
--                 `may_call` first; the caller's `rate_key` is what its rate limits are charged to.
--   RateLimit     src/surface/ratelimit.rs (`Buckets::take`, `Buckets::refund`) and `rate_limited` of
--                 src/surface/dispatch.rs, which charges a call to its tiers.
--   Breaker       src/surface/breaker.rs: `BreakerState::check` before a call, `on_result` after it.
--   Redirect      src/redirect.rs: the policy of every client that carries a credential.
--   Project       src/project.rs: the projections and edits that shape a result.
--   AuditChain    src/audit_chain.rs: the chain of MACs over the lines of the audit log.
--   Preflight     src/surface/preflight.rs: the check of arguments against a tool's schema before a call.
--   Patch         src/surface/patch.rs with `FieldSpec` and `FieldPatch` of src/config.rs: what an overlay
--                 changes in a schema, and whether it still fits the live one.
--   Results       src/surface/results.rs with `Expect` and `ResponseTransform` of src/config.rs, and
--                 `budget_truncate` of src/surface/minify.rs: reading, checking, shaping and cutting a result.
--   Minify        src/surface/minify.rs: schemas cut for display.
--   Ids           src/surface/ids.rs and `normalize_id` of src/index.rs: the names tools are exposed under, the
--                 distance of two names, and what is suggested for a name that is not known.
--   Workflow      src/surface/workflow.rs: composites, run step by step, and their failure report. A call of
--                 a tool is an argument, which takes and returns the state of the world.
--   Config        src/config.rs (`Config::validate`, `index_overlays`, `overlay_for`, `error_hints_for`): what
--                 is accepted as a configuration, and which overlay a tool has.
--   Generators    src/surface/generators.rs: tokens in header values, FNV-1a, fingerprints, the calendar.
--   Cache         src/surface/cache.rs and the cache of src/surface/dispatch.rs: what is cached, under which
--                 key, for how long, and what a write removes.
--   Dispatch      src/surface/dispatch.rs, `dispatch_reach`, `paginate` and `apply_error_hints`: the path of
--                 one call. It goes through Visibility, RateLimit, Project (defaults), Preflight, Cache,
--                 Breaker and the upstream in this order, then settles breaker, pages and cache, and shapes
--                 the answer with Results. The state of a surface is the record `State`.
--   Exec          src/exec.rs: an operation of an OpenAPI spec as a request, and the body of its result.
--                 Sending it is an argument of Dispatch.
--   Spec          src/spec.rs: the operations of a spec and their ids, its references,
--                 bodies and parameters, and what of an operation goes into a request of Exec. A pass follows
--                 at most 12 references one into another, and a schema is resolved in at most 13 passes, as
--                 in the code.
--   Auth          src/auth.rs and src/oauth.rs: who a token says the caller is (the `Caller` of Visibility),
--                 the refreshes of a key set, whether a token is live, and the token for an upstream. A task
--                 that waits for another's fetch takes the set as that fetch leaves it.
--   Json          serde_json's values, which Project, AuditChain, Preflight, Patch and Results work on.
--   Prelude       names shared by all of them.
--
-- How the code is read. A struct is a record and an enum a data type; a method that changes its state
-- takes the state and returns the new one. A mutex is held for a whole operation, so an operation is one
-- step. `Instant`s and `Duration`s are nanoseconds, and the instant of an operation is an argument of it,
-- as in the code. A `u32` counter saturates at 2^32 - 1 and a `u64` sequence number wraps at 2^64, as
-- written in the source. `decimal` prints a `u64` with fuel 20, which is the number of digits of 2^64 - 1.
-- The loop over pages recurs on the pages that are left to `max_pages`. The search for a free operation id
-- has one more try than there are ids, which is enough for numbers of at most twenty digits. Recursion is on the structure of a
-- value, a path or a list everywhere else.
--
-- What is not of the repository is a parameter. `MapOps` is serde_json's map (`insert`, `remove`) with the
-- laws of a map; `Hmac` is ring's HMAC, and `JsonText` serde_json's printing and parsing; `Floats` is the
-- arithmetic of `f64` with laws that IEEE 754 gives; `Comparing` is how serde_json compares values and
-- numbers; the port known for a scheme, the parsing of URLs, the jq filter, the secrets, the decoding of
-- tokens, the clock, random bytes and the call of a tool are arguments. Each is met by a
-- concrete function in the tests: `Json.Entries` for maps, and the `Examples` of a part for the others.
--
-- Not modelled: reading the configuration file, the transports (stdio, HTTP, TLS), the
-- processes of upstreams, JSON-RPC, the checks of signatures and the parsing of keys, the search index, the
-- jq filter, and file writes. These are I/O or calls of libraries.
mod Prelude
pub mod Json
pub mod Breaker
pub mod Project
pub mod AuditChain
pub mod Visibility
pub mod Redirect
pub mod RateLimit
pub mod Preflight
pub mod Patch
pub mod Results
pub mod Ids
pub mod Workflow
pub mod Minify
pub mod Config
pub mod Generators
pub mod Cache
pub mod Dispatch
pub mod Exec
pub mod Spec
pub mod Auth
