-- ===== src/Lib.antt =====
-- toolops is a Go library of what runs beside a tool server: package resilience wraps operations
-- against failure, package auth decides who may call what, package cache stores the results of
-- tools, package health reports the state of components, package observe records the executions of tools,
-- and package secret resolves references in configuration values.
-- The packages do not call each other; within one, the parts compose as written below.
--
-- Base: what the files share. Go's int and int64 are the integers of Base/Int, with `wrap64` where the
-- code can leave the range; a string or []byte is its list of bytes (Base/Text); a map[string]V is an
-- association list (Base/StringMap); a time.Time is its nanoseconds since the zero Time, and a Duration
-- is an int64 (Base/Time); float64 is a parameter (Base/Float), and so is package unicode beyond ASCII
-- (Base/Unicode). State that several calls share is a place in a world, `Cell` (Base/World); what the
-- runtime or a caller provides is a record `Host` of the module that uses it.
--
-- Resilience (resilience/): an Operation runs in a world and returns an error or none, or panics.
--   Circuit         circuit.go. before_request, after_request, current_state_locked, state_of, reset,
--                   metrics and execute are the methods of those names. `now` is what time.Now()
--                   returns; the calls of OnStateChange are returned as a list.
--   Retry           retry.go. The loop is recursion on the number of attempts left, which is
--                   MaxAttempts at the start.
--   Bulkhead        bulkhead.go. The semaphore channel is its length `sem`. Interleaving has the steps
--                   of concurrent goroutines, Execution one call.
--   RateLimit       ratelimit.go, over any float64.
--   Timeout         timeout.go. context.WithTimeout, the goroutine and the select are one parameter:
--                   what has finished in it is the operation, with the result it gives.
--   Executor        executor.go. The patterns in the order limiter, bulkhead, breaker, retry, timeout.
--
-- Auth (auth/):
--   Identity        identity.go, errors.go.
--   Authorizer      authorizer.go; the quoting of `%q` in the text of its error is a parameter.
--   Rbac            rbac.go. The loop of collectRoles has as fuel the number of the subject's roles and
--                   of all configured inheritances: each round takes one from the queue, and a role
--                   adds what it inherits only once.
--   Authenticator   authenticator.go.
--   Composite       composite.go.
--   ApiKey          apikey.go. SHA-256 with hex encoding is a parameter; an API key's hash is compared
--                   by the store's map.
--   Context         context.go, transport.go.
--   Claims          the type assertions on `any` values of jwt.go, oauth2_introspection.go, factory.go.
--   TokenCache, Introspection
--                   oauth2_introspection.go. The exchange with the endpoint is a function of the Host.
--   Jwt             jwt.go. jwt.Parse is a parameter that is given the key function.
--   Jwks            jwks.go, as one goroutine runs it.
--   Registry        factory.go: the named factories.
--   Factory         factory.go: the factories of the default registry, and what they read.
--
-- Cache (cache/):
--   Key             cache.go: the interface Cache and ValidateKey.
--   Timed           cache.go: what the middleware relies on of a Cache.
--   Policy          policy.go.
--   Memory          memory.go. Get has two sections, `read` and `finish_get`, between which another
--                   goroutine may come; Timed runs calls one after the other, Interleaving their
--                   sections in any order.
--   Keyer           keyer.go. An input's maps stand in the order of a range; sort.Strings is insertion
--                   sort, json.Marshal of other values and SHA-256 are parameters.
--   Middleware      middleware.go. A keyer is any function from a tool and its input to a key or none.
--
-- Health (health/):
--   Checker         checker.go, errors.go.
--   Aggregator      aggregator.go. The clock, the select of one check and the goroutines of a parallel
--                   run are a Host; of the gathered results is known only that they have the jobs'
--                   names and pass what the jobs' results pass.
--   Memory          memory.go, over any float64 and statistics.
--   Http            http.go: each handler as its calls on the ResponseWriter; json.Encoder, the formats of
--                   package time and the mux are parameters.
--
-- Observe (observe/): OpenTelemetry's tracer, meter and exporters are records of what is called.
--   Meta, Span      tracer.go: ToolMeta, and the spans around an execution.
--   Metrics         metrics.go.
--   Logger          logger.go. An entry is a map; json.Marshal and the writer are parameters.
--   Middleware      middleware.go. Recording instantiates OpenTelemetry with a list of events.
--   Config, Observer  observe.go: validation, NewObserver and Shutdown; errors are values, without text.
--   Exporters       exporters/factory.go.
--
-- Secret (secret/):
--   ExpandEnv       expandenv.go, with strings.ReplaceAll and os.Expand written out; a scan that passes
--                   over the bytes of a match counts them down, so that it is recursion on the text.
--   Ref             resolver.go: ParseSecretRef and the matches of the inline pattern.
--   Resolver        resolver.go, provider.go. The references of a text are resolved from the last to the
--                   first, in a world that the providers may change.
--   Registry        registry.go.
--
-- Each package has Tests, where the theorems are applied to concrete inputs.
--
-- Not modelled: the HTTP exchanges and the token library behind the authenticators (parameters of Jwt,
-- Jwks and Introspection), the collapsing of concurrent refreshes in jwks.go, and the texts of errors
-- other than those of package health and of AuthzError.
pub mod Base
pub mod Resilience
pub mod Auth
pub mod Cache
pub mod Health
pub mod Observe
pub mod Secret
