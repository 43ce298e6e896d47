-- ===== src/Lib.antt =====
-- homelab-api: one HTTP API over Synology devices and UniFi controllers.
--
-- The program is a server. Its configuration (internal/config) names the backends; an adapter
-- (internal/adapters) talks to each of them; a domain service (internal/network, internal/docker,
-- internal/storage, internal/system) holds a registry of its backends, sorted by name, and answers
-- list and get requests from them. A monitor (internal/health) pings the backends in the background,
-- and the list operations leave out those that it reports as unavailable. Resources are addressed by
-- composite IDs "backend.suffix" (internal/apierrors), and two middlewares (internal/auth) decide
-- which requests reach a handler.
--
-- Files, by the part that they model:
--   Base       Go's strings, maps, integers, float64, (value, error) results and the loops of the
--              list operations (Base/Loop), with the lemmas that the parts share
--   ApiErrors  internal/apierrors: parse_composite_id is ParseCompositeID
--   Adapters   internal/adapters: the registry (Adapters/Registry), the decoded records of the two
--              APIs (Adapters/UniFi, Adapters/Synology); Adapters/Dsm is SynologyClient (synology.go):
--              Session (login and Call), Discovery (DiscoverAPIs, Ping), Methods (the API methods),
--              Sharing (several goroutines on one client); Adapters/Controller is UniFiClient
--              (unifi.go); Adapters/Listing is what every list operation does with a backend first
--   Config     internal/config: validate and ByType
--   Health     internal/health/monitor.go: the monitor as a state, a run as a list of events
--   Auth       internal/auth/middleware.go: both middlewares; Auth/Protected is their sequence
--   Network    internal/network: Service (service.go), Kebab (toKebab), Names and Clients
--              (clients_service.go), Refs, Kinds, PortVlans, DevicePorts, DeviceDetails and Devices
--              (devices_service.go), Ports, Fields and Vlans (vlans_service.go), Wans, Ssids,
--              Topology (the nodes and edges) and Topology/Graph (GetTopology)
--   Docker     internal/docker: Service, Networks, Images, Containers
--   Storage    internal/storage: Volumes and Backups (with service.go)
--   System     internal/system: Images (image references and release sources), Releases (the cache
--              of releases, github.go), Scan (service.go, the containers), Updates (the update items),
--              Health and Health/Aggregate (health_service.go), Info (info_service.go and
--              utilization_service.go)
--   Server     cmd/server: the clients, the health checkers and the network service that the
--              configuration asks for (backends.go, main.go)
-- A module X has its theorems in X/Laws, examples in X/Tests; some have theorems of one kind in a
-- module of their own, such as Auth/Protected, Dsm/Session/Recovery, Topology/Joined,
-- Updates/Warnings or Server/History.
--
-- How the code is read:
--   - a string is its list of bytes; strings.ToLower maps ASCII texts byte by byte, and the rest of
--     Unicode is the instance argument `Unicode`;
--   - a map is an association list, in the order in which a range over it happens to run; where the
--     order matters a theorem says so (Adapters/Registry) or assumes that the keys differ;
--   - an error is its message and whether errors.Is finds ErrNotFound in it; a pointer that may be
--     nil is an Option; a logged warning is a value beside the result;
--   - a backend is a record of what its methods answer while one request is served; an adapter is a
--     state with the requests that it has sent, and its methods are actions on that state
--     (Base/Action) over a parameter that answers each HTTP request from all requests before it;
--   - the goroutines that share an adapter are steps of a relation, one for each section under its
--     lock (Adapters/Dsm/Sharing);
--   - JSON decoding, the JWT library, time.Parse, time.LoadLocation, ParseFloat, ParseCIDR and the
--     request for a release are parameters;
--   - a float64 is a number of thousandths; an int is an integer, and where a sum or a product can
--     leave 64 bits the wrap-around is written out (wrap_int64); times are natural numbers of
--     nanoseconds on a clock that does not go back;
--   - the generated API types are records with the fields that the services fill in, and their
--     unions are sums, since marshalling these fields does not fail.
-- The loops are structural recursion. Only the digits of %d run on fuel, as much as the number
-- itself, which is more than it has digits.
--
-- Not modelled: an ip_subnet over IPv6 and the warnings of some requests; in cmd the construction
-- of the services other than the network's, and the serving; the handlers' encoding,
-- internal/routing, internal/meta, the Dex proxy and TLS, which are I/O or calls of libraries.
pub mod Base
pub mod ApiErrors
pub mod Adapters
pub mod Config
pub mod Health
pub mod Auth
pub mod Network
pub mod Docker
pub mod Storage
pub mod System
pub mod Server
