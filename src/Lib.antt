-- ===== src/Lib.antt =====
-- LimitPlane: the decision that an API gateway takes on each request, and the parts that it asks.
--
-- A request is identified and resolved to a plan by the policy, refused if its client serves a ban, charged
-- to the plan's monthly meter, asked of the burst limiter in the lane that the client's behaviour gives it,
-- and written to the diary, from which the classifier, the autopilot and the dashboard's counters learn.
-- Beside the requests, billing puts a paid key on a tier through the policy, the hub pushes what happens to
-- the dashboards' sockets, the tokens of authjwt stand in front of the handlers, the directory says who may
-- see which site, and a lease picks the one replica of the operator that writes.
--
-- The files, and the code that each is about:
--   Gateway, Gateway/Check     internal/gateway/gateway.go: Check, one function for each step. Gateway/Check
--                              has children: Outcomes (the ways in which it ends), Promises and
--                              Refusals.
--   Gateway/Waiting            the Retry-After of gateway.go against the token bucket
--   Limiter                    internal/limiter/limiter.go: Decision and the questions
--   Limiter/TokenBucket        internal/limiter/tokenbucket.go: Check, CheckBurst, Sweep, Len, the constructor
--   Limiter/FixedWindow, Limiter/SlidingWindowCounter, Limiter/SlidingWindowLog, Limiter/LeakyBucket
--                              internal/limiter/windows.go: the four Check methods
--   Limiter/MonthlyQuota       internal/limiter/monthlyquota.go
--   Limiter/Keyed              what the limiters with one map share: a call changes the entry of its key
--   Policy                     internal/policy/policy.go: Identify, Resolve and the edits
--   Audit                      internal/audit/audit.go: Record and Recent
--   Automations                internal/automations/automations.go: OnDecision, bans; Automations/Review is
--                              RunAIReview
--   Fingerprint                internal/fingerprint/fingerprint.go: Observe, classify and LaneFor
--   Stats                      internal/stats/stats.go: OnDecision, Snapshot and Forget
--   Visitors                   internal/live/visitors.go: Track, the answer of a lookup, Snapshot
--   Wshub                      internal/wshub/wshub.go: the frames, written and read. Its children: RoundTrip,
--                              Reading and Replies (the frames against RFC 6455), Connection (one socket:
--                              enqueue, gracefulClose, the turns of writeLoop and readLoop), Promises, Writes,
--                              Delivery and Ending (any order of its goroutines' turns), ReadLoop, Hubs (the
--                              hub over many sockets), Missed and Dashboards
--   Lease                      internal/k8s/lease.go: tryAcquireOrRenew and release. Its children: World (the
--                              replicas, the API server, and their steps), Spacing, Decisions, Runs, Elections
--   Orgstore                   internal/orgstore/orgstore.go: the changes; Orgstore/Lookups the lookups and
--                              RemoveSite. Its other children: Slug, Counts, Managed, Owners, Sites
--   Billing                    internal/billing/billing.go over the policy; Billing/Payments
--   Authjwt                    internal/authjwt/jwt.go; Authjwt/Sessions
--   Prelude                    what the files share: integers, lists, maps, strings, Boolean tests
--
-- How the code is read. A method that holds its mutex is one function from the state to an answer and the
-- state; the token bucket's is one for each shard. The clock's time is an argument of each call. A Go map is
-- an association list with distinct keys, its order of iteration the list's. An amount (float64) is a whole
-- number of millionths of a token; a rate is one for each millisecond, a quotient rounded down. Times and
-- amounts are integers without bounds: the overflow of int64 and the rounding of float64 are not modelled,
-- nor is that of the count of a lease's transitions. Where goroutines or replicas share a state, it is a
-- record, and each of their steps a function on it, taken in any order. RunAIReview takes its lock several
-- times: what the other callers do before each, and the time that it then reads, are arguments.
--
-- Parameters stand for what the code takes from elsewhere: the string hash and the number of processors, the
-- calendar (month_id, resets_at, month_of), the standard library's reading of an address, what the language
-- model and the geolocation service answer, the version that the API server gives to a write, the salts,
-- hashes and lower case of the directory, and the base64, HMAC and JSON of tokens and webhooks. Gateway/Check
-- takes the two meters as the interfaces that the code has.
--
-- Two loops are on fuel. The doubling of the shard count starts at one and doubles at least once for each
-- unit of fuel, so the target itself, eight times the processors, is fuel enough. The loop that reads frames
-- from a socket takes six bytes at least for a frame, so fuel above the stream's length is enough.
--
-- Not modelled: the HTTP handlers, headers and bodies, the Redis scripts and client, the files of the
-- directory and the tenants, the calls of Stripe, the response and the deadlines of the WebSocket handshake,
-- the Kubernetes client but for the leader election, the operator, metrics, user agents, the notifications
-- and the explanations of a language model, and the kernel fast path: they are input and output, or calls of
-- other services.
pub mod Prelude
pub mod Limiter
pub mod Policy
pub mod Audit
pub mod Automations
pub mod Fingerprint
pub mod Gateway
pub mod Stats
pub mod Visitors
pub mod Wshub
pub mod Lease
pub mod Orgstore
pub mod Billing
pub mod Authjwt
