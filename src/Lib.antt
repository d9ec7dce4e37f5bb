-- ===== src/Lib.antt =====
-- GoCSI: a library for plug-ins of the Container Storage Interface (CSI), written in Go. A plug-in is
-- a gRPC server of three services (identity, controller, node). GoCSI reads the plug-in's settings
-- from the environment, installs interceptors in front of the services, and serves; a mock plug-in
-- and a command line client come with it.
--
-- The parts, with the files that model them and the sources by their paths in the repository:
--
-- Csi, Csi/Reflect: the messages of the CSI specification, as generated in
--   vendor/github.com/container-storage-interface/spec/lib/go/csi/csi.pb.go, and what the getters and
--   the fields that reflection finds give of them. Status: the codes, statuses and errors of grpc,
--   and the outcome of a call, which is a reply with an error or a panic.
-- Context: context/context.go. LookupEnv, Getenv, Setenv and GetRequestID, over a context whose
--   values are a record and whose functions change an explicit state.
-- Plugin: the storage plug-in. Plugin/EnvVars and Plugin/Env are envvars.go (initEnvVars,
--   initSupportedVersions, initPluginInfo), Plugin is the environment in gocsi.go (lookupEnv, setenv,
--   getEnvBool). Plugin/Interceptors is initInterceptors of middleware.go: from the variables to the
--   list of interceptors with their settings. Plugin/Chain gives each of them its function and chains
--   them around a service as Serve does.
-- Plugin/Endpoint is the permissions and the owner of the socket file in gocsi.go
--   (initEndpointPerms, initEndpointOwner), and Plugin/Serve the whole of Serve: its steps in their
--   order, each with its way to end, and the services that it registers. Plugin/Run is Run and
--   trapSignals of gocsi.go with Stop and GracefulStop, as the steps of a process, Run/Invariant what
--   the steps keep, and Run/Exit what holds when it exits. A panic ends the process; the plug-in's own
--   code does not exit it.
-- RequestId: middleware/requestid/request_id_injector.go. Logging:
--   middleware/logging/logging_interceptor.go.
-- SpecValidator: middleware/specvalidator/spec_validator.go. Its options (Options), the size limits
--   (Fields, with the order of the maps in Order), the capabilities (Capabilities), the patterns
--   (Patterns), the requests (Requests), the responses (Responses), and the handlers (Handle).
--   Conformance states what passes, Codes the codes of the errors, Laws what reaches the next handler
--   and the caller.
-- SerialVolume: middleware/serialvolume/serial_volume_locker.go over the interface of
--   middleware/serialvolume/types/volume_lock_provider.go. Provider is default_lock_provider.go,
--   Release one request alone, Steps the interleavings of requests, Exclusion what they keep.
-- SerialVolume/Etcd: the initConfig of middleware/serialvolume/etcd/etcd_lock_provider.go, with its
--   variables (EnvVars, etcd_envvars.go) and the values that they stand for (Settings). Client is the
--   provider and its mutexes over an etcd client, Paths what keeps their locks apart.
-- Mock: mock/service/*.go. Service is the state and the lookup of volumes, Controller, Node and
--   Listing are the calls, Server is all of them; Kept and Server/Invariant are the invariant,
--   Effects and Listing/Pages what a client sees. View is the volumes by their ids, Server/Spec the
--   specification over that view, and Server/Calls and Server/Refinement are the calls against it.
--   Provider is mock/provider/provider.go, the plug-in of this service, and Provider/Guard what its
--   interceptors keep from the service.
-- Csc: the command line client. Csc/VarTypes is csc/cmd/vartypes.go, the values of its flags (Set),
--   Csc/Interceptors is csc/cmd/interceptors.go and the debug mode of csc/cmd/root.go: from the
--   flags to the client's interceptors, and in Client the chain of them around a connection. Csc/Root
--   is csc/cmd/root.go and formats.go: what runs before a command, with its template (Template), and
--   the exit code. Csc/Commands are the commands: Volumes those with a loop over their arguments
--   (Loop), Single the others, and Mock the commands against the mock service, with Repeat and Delete.
-- Utils: utils/utils.go, utils/utils_middleware.go and utils/utils_rpcs.go. Versions, Methods (the
--   names of the RPCs and the nil responses), Success, Chain, Paging, Parsing, MapWs (ParseMapWS),
--   and Endpoint (ParseProtoAddr, GetCSIEndpoint).
-- Base: Go strings as lists of bytes, maps as lists of entries, numerals, paths, and the splitting of
--   strings. Tests: the theorems and the definitions at concrete inputs.
--
-- How they interact: the chain of Plugin/Chain calls the interceptors of RequestId, Logging,
-- SpecValidator and SerialVolume in this order, then the service, such as Mock/Server. Every handler
-- is a function from a state to an outcome and a state, so that an interceptor around a handler is a
-- function of that handler, as in the source.
--
-- Bounds and fuel: unsigned 64-bit and 32-bit counters wrap around, which the definitions write out.
-- find_versions has the length of the text as its fuel and each round takes a character;
-- page_volumes takes a fuel that bounds the pages, and the volumes and one more are enough for the
-- mock service; itoa has a fuel that is larger than the number of digits.
--
-- Parameters: strings.EqualFold by its documented laws (Base/Fold, with the ASCII fold as an
-- instance); ToUpper, TrimSpace, the csv reader, time.ParseDuration and the number of seconds of a
-- duration; the process environment; the client of etcd, its sessions and its mutexes; the users, the
-- groups and the files of the host, and the plug-in's own BeforeServe; grpc's Status.WithDetails; what
-- fmt prints of a value or of an error; the templates, the connection and the client of csc. A TryMutex
-- of gosync is locked or free.
--
-- Not modelled: the encoding and transport of grpc; the paging, the log level and the usage texts of
-- the csc client; the log level and the usage of Run; the bootstrap script. A context is not cancelled,
-- and nothing times out but the lock of a volume. The interceptors that a plug-in's author adds in
-- front of those of GoCSI are in the list of Plugin/Serve, not in the chain of Plugin/Chain.
pub mod Base
pub mod Csi
pub mod Status
pub mod Utils
pub mod Context
pub mod RequestId
pub mod Logging
pub mod SpecValidator
pub mod Mock
pub mod SerialVolume
pub mod Plugin
pub mod Csc
pub mod Tests
