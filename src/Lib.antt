-- ===== src/Lib.antt =====
-- The core of the llm-router gateway: what happens to a chat request between its JSON and the
-- providers, and the components that decide it.
--
-- A request passes the middlewares (keys, rate limits, guardrails), then the chat handler resolves its
-- model to a fallback chain, by routing rules, by a named chain or by "provider/model"; a residency
-- policy removes the targets that it does not allow; the fallback router orders the targets by a
-- load balancer and tries one after the other, each behind its circuit breaker and with retries.
--
--   Common, Common/*        lists, maps, integers, and what is relied on of Go's sort package
--   CircuitBreaker          internal/gateway/circuitbreaker/circuit_breaker.go: CircuitBreaker, its
--                           State, Config and entry; IsOpen is is_open, and so on. View has one
--                           machine per provider, Machine its invariant, edges and runs
--   Provider/Errors         internal/provider/errors.go: GatewayError
--   Retry                   internal/gateway/retry/policy.go and executor.go: RetryPolicy, Execute
--   Fallback                internal/gateway/fallback/router.go: Target, Chain
--   Fallback/Router         the same file: Execute is execute_chain, ExecuteStream execute_stream,
--                           and walk is the loop of both. Log and Calls say which providers are
--                           called, Result what is returned, Failover when a response is sure
--   Fallback/Balance        internal/gateway/fallback/load_balancer.go: WeightedRandom, RoundRobin,
--                           and in Least LeastLatency, LeastCost
--   Residency               internal/residency/policy.go and enforcer.go: Policy, FilterChain
--   Chat                    internal/gateway/handler/chat.go: ChatHandler.Handle is handle;
--                           ParseModel is its parseModel
--   Rules                   internal/gateway/types/routing.go and internal/gateway/router/matcher.go:
--                           RouteRule, Matches; Engine is internal/gateway/router/engine.go, with
--                           reload, Resolve and buildChain
--   RateLimit               internal/ratelimit/redis_limiter.go and
--                           internal/gateway/middleware/rate_limit.go: the script, Allow, RateLimit
--   Guardrail               internal/guardrail/pipeline.go and interface.go, and
--                           internal/gateway/middleware/guardrail.go: run, GuardrailCheck
--   Access                  internal/auth/rbac: HasPermission, RequirePermission, RequireRole;
--                           Tools is internal/mcp/policy.go
--   Auth                    internal/auth/virtual_key.go and middleware.go: IsValid,
--                           CanAccessModel, and the middleware as authenticate
--   Provider/Keys           internal/provider/key_manager.go and key_selector.go: SelectKey is
--                           select_key; Pick is about the weighted choice, Cached about runs
--   Provider/Anthropic      internal/provider/anthropic/transform.go and stream.go: BuildRequest,
--                           ParseResponse, and the loop of ChatCompletionStream as read_stream
--   Budget                  internal/budget/manager.go and internal/gateway/middleware/
--                           budget_check.go: CheckBudget, RecordSpend, BudgetCheck
--   Streaming               internal/gateway/proxy: Relay is stream.go, where a sequence of events
--                           stands for what the loops select; Sse is sse_parser.go
--   Mcp                     internal/mcp: Hub is hub.go; Cache, Proxy and Listing are proxy.go;
--                           Runs has the sequences of calls that Invariant is about
--   MlRouter                internal/mlrouter: Classifier, Scorer and router.go
--   Alerting                internal/alerting: the router, the deduplicator and the bus
--   Telemetry               internal/telemetry/log_writer.go: Write, Close and run as events
--   Telemetry/Latency       internal/telemetry/latency_tracker.go
--   Health                  internal/health/provider_health.go; Window has the sequences of
--                           operations that its theorem is about
--   ExactCache              internal/cache/exact: Store is cache.go and key.go, Replay replay.go;
--                           Middleware is internal/gateway/middleware/cache.go
--   AbTest                  internal/abtest: Experiment is experiment.go and assignment.go, Analysis
--                           analyzer.go; Store is internal/store/postgres/abtest_store.go,
--                           Middleware internal/gateway/middleware/abtest.go, Admin
--                           internal/gateway/handler/admin_abtests.go; Sync has the sequences of
--                           operations that Rerouting is about
--
-- State is passed explicitly: the circuit breaker's entries are an association list, Redis is its
-- sorted sets with the time, and W is the state of the world around the router (providers, clock,
-- random numbers). Code from outside the repository is a parameter: the providers' calls, Go's
-- floating point, rand, sort and regexp packages, and the waits of a retry. Loops are by recursion
-- on their lists, or on the number of attempts that are left, which is the policy's maximum, so
-- none runs on fuel that could end early. Times are natural numbers; sums of weights and counters
-- are not bounded, and stay far below 2 ^ 63.
--
-- Not modelled: locks (operations are a sequence of steps), log lines, metrics and traces; JSON and
-- HTTP headers; persistence and administration but those of experiments, configuration, sessions,
-- billing and start-up, which are I/O and glue; and the provider adapters but Anthropic's.
pub mod Common
pub mod CircuitBreaker
pub mod Provider
pub mod Retry
pub mod Fallback
pub mod Residency
pub mod Chat
pub mod Rules
pub mod RateLimit
pub mod Guardrail
pub mod Access
pub mod Auth
pub mod Streaming
pub mod Mcp
pub mod Budget
pub mod MlRouter
pub mod Alerting
pub mod Telemetry
pub mod ExactCache
pub mod AbTest
pub mod Health
