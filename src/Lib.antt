-- ===== src/Lib.antt =====
-- Verification of kiam, which hands AWS credentials to pods.
--
-- An agent on every node (pkg/aws/metadata, cmd/kiam) answers the requests that pods make to the EC2
-- metadata service. It asks a server (pkg/server) over gRPC, which finds the pod by the client's
-- address in a cache of pods (pkg/k8s), checks the policies, resolves the role to an ARN and has
-- credentials issued by STS (pkg/aws/sts).
--
-- The files, by the code that they are about:
--
--   Base            the helpers: Text (Go strings as lists of bytes, package strings), Outcome (a
--                   value, an error, or a panic), Lists, Total, Keep and Decimal
--   Sts/Resolver    pkg/aws/sts/arn_resolver.go and resolver_detect_arn.go: Resolve is `resolve`,
--                   BaseArn is `base_arn`
--   Sts/Identity    pkg/aws/sts/role_identity.go: String is `to_string`
--   Sts/Session     getSessionName and sanitizeSessionName of pkg/aws/sts/cache.go
--   Sts/Credentials pkg/aws/sts/credentials.go
--   Sts/Cache       credentialsCache of pkg/aws/sts/cache.go, and pkg/future/future.go: a call of
--                   CredentialsForRole is a `Call` with its progress, and `step` is what one goroutine
--                   does next. Memo is what it promises to calls one after another,
--                   Ttl has the time that an entry lives, and Metrics the gauges and
--                   counters of pkg/aws/sts/metrics.go beside the steps
--   Sts/Gateway     pkg/aws/sts/gateway.go
--   Sts/Endpoint    pkg/aws/sts/aws_endpoint_resolver.go and kiam_configuration_builder.go
--   K8s/Pod         what pkg/k8s/pod_cache.go reads off a pod, and its index functions
--   K8s/PodCache    the lookups of pkg/k8s/pod_cache.go over an indexed store; Bag is what they promise
--   K8s/Announcer   podHandler of pkg/k8s/pod_cache.go and its channel
--   K8s/NamespaceCache  pkg/k8s/namespace_cache.go: the lookup and the handler of events
--   Server/Policy   pkg/server/policy.go, and the policy of Build in server_builder.go
--   Server/Handlers the calls of KiamServer in pkg/server/server.go, with the recorded events
--   Server/Issued   the server over the credentials cache, down to the requests for STS
--   Server/Lifecycle  Serve and Stop of pkg/server/server.go, and the two goroutines of Run in
--                   cmd/kiam/server.go, as a step relation
--   Server/Builder  pkg/server/server_builder.go
--   Server/Gateway  pkg/server/gateway.go
--   Server/GatewayBuilder  pkg/server/gateway_builder.go
--   Server/Tls      pkg/server/tls.go: the watch loop; Gauges has notifyFunc and earliestExpiry,
--                   Expiry its loops, Watcher the constructor with its watcher, and Closing the calls of
--                   Close beside the loop, as a step relation
--   Prefetch        pkg/prefetch/manager.go. Warm has it and the server over one cache
--   Metadata/Http   net/http as far as the handlers use it, and pkg/aws/metadata/metrics.go
--   Metadata/ClientIp  buildClientIP and ParseClientIP of pkg/aws/metadata/server.go
--   Metadata/Retry  the loops of the handlers that ask the server until it answers
--   Metadata/Handlers  handlers.go and the handlers for credentials, roles and health
--   Metadata/Proxy  pkg/aws/metadata/handler_proxy.go
--   Metadata/Mux    the router of gorilla/mux, by its documentation
--   Metadata/Log    pkg/aws/metadata/log.go
--   Metadata/Server pkg/aws/metadata/server.go and the Install methods: the routes. Permitted goes from
--                   a request to the agent down to the server's policy, Issued from there to the
--                   requests for STS, and Logged from the request to the log
--   Cmd/Iptables    cmd/kiam/iptables.go
--   Cmd/Server      Run of cmd/kiam/server.go up to its goroutines
--   Cmd/Agent       run of cmd/kiam/agent.go
--   Cmd/Options     cmd/kiam/opts.go and the flags that each command binds, with their defaults
--   Cmd/Health      Run of cmd/kiam/health.go
--   Tests           a small cluster, and the theorems at concrete inputs
--
-- State is passed explicitly: the credentials cache steps with all calls that are in flight, so that a
-- list of actions is an interleaving of goroutines; the watch loop is a function on the configuration,
-- the handler of the pods' events steps a record with the contents of its channel, and a call of the
-- server takes and returns the provider's state and the recorded events. Loops are recursions on lists
-- or on the number of attempts that is left, so no fuel is chosen; only the printing of a number takes
-- fuel, which is the number itself and is shown to be enough in Base/Decimal.
--
-- Code of other packages is a parameter. The store of client-go has the law of ByIndex (Indexer),
-- the cache of go-cache has the laws of its operations and of what it evicts (ItemCache),
-- Retry of the backoff library and the router of gorilla/mux have the laws of their documentation
-- (Backoff, Mux), as have, for the log, the redirect of net/http and the reverse proxy (Redirects,
-- HeaderFirst), and regular expressions, certificates, hashes (Tools), the encoder of JSON, gRPC, the
-- iptables library and what kingpin reads for a flag (Arguments) are arbitrary. For the time that an
-- entry of the cache lives, and for the number of its items, go-cache has further laws (Timed,
-- Counted). The one fixed expression of the proxy and the character class of session names are
-- functions on texts, the latter by UTF-8 characters.
--
-- Not modelled are the other lines that are logged, times that are measured, the histogram of the
-- handlers, generated code, the start of listeners, and the processes of the manager beside one
-- another.
--
-- Some steps are coarser than the code. Making a future and putting it into the cache is one step, and
-- an eviction by the janitor counts once, when it ends. The channel of announced pods has a buffer of at
-- least one; one without a buffer would hand a pod to a receiver that waits. What the handlers write is
-- taken by the connection, and the EC2 metadata service answers the builder of a server alike each time
-- that it is asked. A header that the backing service sets replaces an earlier value under its key.

pub mod Base
pub mod Sts
pub mod K8s
pub mod Server
pub mod Prefetch
pub mod Metadata
pub mod Cmd
pub mod Tests
