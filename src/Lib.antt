-- ===== src/Lib.antt =====
-- svckit is a toolkit of Go packages for microservices. This library models the packages that carry
-- state and decisions of their own, as functions that a reader can run, with what is proved of them.
--
-- Parts, and where they are modelled (paths from the repository's root):
--   httpclient/client.go    Httpclient: the circuit breaker (Breaker: CanExecute, RecordSuccess,
--                           RecordFailure), the retry loop of Client.Do around it (Retry) and the
--                           trace context with its headers (Trace: TraceContext, Traceparent,
--                           parseTraceparent, ToHeaders, TraceContextFromHeaders).
--   pgcluster/manager.go    Pgcluster.Node, the data; Pgcluster.Routing: Writer, Reader, DB and the
--                           cluster's breaker; Pgcluster.Connect: connectToNode, calculateBackoff and
--                           initializeNodes; Pgcluster.Manager: NewClusterManager and Close.
--   pgcluster/health.go     Pgcluster.Health: checkNodeHealth, isRetryableError and HealthCheck.
--   pgcluster/writer_detection.go
--                           Pgcluster.Detect: detectWriter by its strategies, SetWriterNode.
--   pgcluster/config.go     Pgcluster.Urls: loadConnectionURLs and maskURL; Pgcluster.Config: the rest
--                           of LoadConfigFromEnv, setDefaults and Validate.
--   secrets/*.go            Secrets: the Store interface, and Chain, Cached, Retrying and EnvStore
--                           over it.
--   rediscluster/adapter.go Rediscluster.Execute: selectNode and ExecuteWithRetry;
--                           Rediscluster.Adapter: NewClusterAdapter, connectToAllNodes,
--                           MarkNodeFailed, GetNodeByIndex and Close; Rediscluster.Reports:
--                           GetClusterHealth and GetMetrics.
--   rediscluster/health.go  Rediscluster.Health: checkNodeHealth, connectToNode (of adapter.go) and
--                           updatePrimaryClient.
--   rediscluster/config.go  Rediscluster.Urls: buildURLFromComponents, the nodes and maskURL;
--                           Rediscluster.Config: the rest of LoadConfigFromEnv.
--   eventbus/signing.go, eventbus/signing_key.go
--                           Eventbus.Json: JSON values and marshalCanonicalJSON; Eventbus.Normalize:
--                           normalizeDataStructure; Eventbus.Signing: SignEvent, VerifyEvent and
--                           LoadSignatureConfig.
--   eventbus/events.go      Eventbus.Event: BaseEvent; Eventbus.Decode: FromJSON.
--   eventbus/publisher.go, eventbus/delivery.go, eventbus/metrics.go
--                           Eventbus.Wire: what is on the broker and what is counted;
--                           Eventbus.Publisher: Publish; Eventbus.Subscriber: what a subscriber does
--                           with a delivery; Eventbus.Decode: what a published body decodes to.
--   eventbus/dispatcher.go  Eventbus.Dispatcher: the routing of an event to its handler.
--   eventbus/broadcast.go   Eventbus.Broadcast: deliveries and their settlement.
--   middleware/context.go   Middleware.Context: requests and what their context carries.
--   middleware/rate_limiting.go
--                           Middleware.RateLimit: the limits, the keys and the counting in Redis.
--   middleware/serviceauth.go
--                           Middleware.ServiceAuth: the key of a service and its scopes.
--   middleware/cors.go      Middleware.Cors: the origins that are allowed.
--   httpx/httpx.go          Middleware.Pagination: Pagination and its query parameters.
--   amqpcluster/adapter.go  Amqpcluster.Node: selectNodeForPublish; Amqpcluster.Connect:
--                           NewClusterAdapter, connectToNode, checkNodeHealth, GetNodeStats and Close;
--                           Amqpcluster.Publish: Publish, DeclareExchange, DeclareQueue, BindQueue.
--   amqpcluster/config.go   Amqpcluster.Config: LoadConfigFromEnv, Validate and maskCredentials.
--   auth/middleware.go, auth/jwt.go
--                           Auth: BearerToken, Authenticate, RequireRole, the identity on a context
--                           and the claims of a token.
--   health/health.go        Health: HealthChecker, CheckHealth and DetailedHealthHandler.
--
-- How they interact: Client.Do asks its breaker once before the loop and tells it once after it. A
-- ClusterManager is a list of nodes with a breaker; the detection of the writer changes the roles
-- of the nodes, the health checks their health and pools, and Writer and Reader select among them
-- by both. A ClusterAdapter of rediscluster selects among the nodes that its health checks call
-- healthy and degrades one whose operations fail. The decorators of package secrets wrap a store,
-- or several, behind the same interface, and LoadSignatureConfig of eventbus reads its key from
-- one. A publisher signs an event and puts it on the broker; a subscriber takes the delivery,
-- verifies it and hands the event to its handler, which may be a dispatcher, and settles the
-- delivery by what came back. The rate limiter counts in a Redis cluster, which is a parameter of
-- it. CheckHealth asks a ClusterAdapter for its report. Publish of an amqpcluster adapter selects a
-- node as rediscluster does and goes on to the other healthy ones. A middleware is a function of a
-- request that passes one on or answers it, and two are composed by asking the second about what
-- the first passes on.
--
-- Conventions. A struct is a record and an enum a data type, with the source's names. Code that
-- mutates its receiver takes it and returns it changed, next to its result. An error is a
-- constructor or its text. What the code asks of the outside is a parameter: the clock as the
-- instants of the calls, random draws, the results of sql.Open, of a ping, a query or an HTTP round
-- trip as scripts indexed by the attempt or the node, the environment as a function. Base.Run has,
-- besides a result, a run that waits for ever on a mutex that it holds, and a panic. Base.Text has
-- the functions of packages strings and strconv that are used, on ASCII bytes; time.ParseDuration
-- is a parameter of the configurations. HMAC-SHA256 with its base64 text, and the text of the
-- float64 that encoding/json reads from a number, are the Codec of Eventbus.Normalize, a parameter
-- of Eventbus: an integer beyond 2^53 may change on its way through JSON. A subscriber takes what a
-- body decodes to, which Eventbus.Decode gives for the bodies of a publisher; that the broker
-- carries them unchanged is a hypothesis. The commands of Redis are a parameter of
-- Middleware.RateLimit, and a signed or parsed JWT is one of Auth. A number in JSON is its printed
-- text, and a map has no key twice. Instants are in nanoseconds: since the zero time in Eventbus,
-- since the Unix epoch in Middleware.RateLimit.
--
-- Bounds and fuel. An int and a time.Duration are integers; where the code can leave the range of an
-- int64 (the shift and the product of calculateBackoff, the counter of the round robin) the
-- wrap-around is written out, and elsewhere the values are bounded by the configuration. The loops of
-- Client.Do, connectToNode and ExecuteWithRetry recurse on the number of attempts that the
-- configuration allows. The sort of the readers runs on the length of the list, strings.Split on the
-- length of the text, and strconv.Itoa on the number and one more, each of which its loop cannot
-- exceed; the loop of Retrying's Get, which only its context bounds, takes its fuel as an argument.
--
-- Not modelled. The goroutines of a health check or a detection each touch one node, so their
-- effect is a map over the nodes, and the tickers that start them are left out, as are logging,
-- metrics exporters, the closing of a pool that is being replaced, and the settings handed to it.
-- Of httpclient the building of a request and the decoding of a response are left out, of
-- rediscluster the commands of client.go, each one call of ExecuteWithRetry, and of eventbus
-- context.go and the strings that Go's JSON escapes beyond ASCII. Of secrets the stores that ask
-- Vault or Kubernetes over HTTP are left out, of health the probe that always answers ok. Of
-- amqpcluster Subscribe and the publisher and the subscriber over the adapter are left out. Whole
-- packages that are not modelled: lifecycle, env, audit; and app, buildinfo, chix, debug, ginx,
-- logging and testkit, which wire a router, a logger or a container together.
pub mod Base
pub mod Eventbus
pub mod Httpclient
pub mod Middleware
pub mod Pgcluster
pub mod Secrets
pub mod Rediscluster
pub mod Health
pub mod Amqpcluster
pub mod Auth
