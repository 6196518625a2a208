-- ===== src/Lib.antt =====
-- Fuzzy chat: a controller that members log in to, and that tells each message which proxies to hop
-- through on its way to its recipient. This library models the program and proves what the
-- components of it promise. A proxy or a client logs in at the controller and pings it; a sender
-- initializes a conversation, asks for a first route and gets the address of a proxy with a nonce.
-- The proxy redeems the nonce and asks for the next route, until the fourth one leads to the
-- recipient, which redeems the last nonce and learns who sent the message.
--
-- The files, and the code that they model (paths from the repository's root):
-- - Prelude: lists and tests on the native numbers; `Effects` has the result of a handler (a value,
--   a gRPC status, or a panic) and the state-passing monad `Exec` with its `do` blocks; `Dict` is
--   `HashMap` behind its laws; `Texts` has `str` as a list of characters, with its laws.
-- - Crosscutting/Component: crosscutting/src/lib.rs. Crosscutting/Networking: socket addresses.
--   Crosscutting/Endpoint and Crosscutting/Settings: the rest of networking.rs and
--   crosscutting/src/settings, with the loading of a descriptor; Settings/Loading proves what it gives.
--   Settings/Logger: the set-up of the logger.
-- - Controller/Models: controller/src/models.rs and the messages of proto/.
-- - Controller/Storage: controller/src/storage/inmemory, the repositories of members
--   (`Members`), sessions (`Sessions`) and routes (`Routes`), whose values expire (`Expiration`,
--   `Times`). Sessions/Invariant, Sessions/Lookup, Sessions/Expiry and Sessions/Reachable prove what
--   a session repository keeps and finds, Routes/Laws the same of routes.
-- - Controller/Redis: controller/src/storage/redis over an interface of the commands it uses; its
--   `Laws` state what Redis documents of them, GET at a key with a hash included, and Sessions/Reads, Sessions/Orphans, Routes/Reads and
--   Members/Reads prove what is read back. Storage/Choice: controller/src/storage/mod.rs.
-- - Controller/State: the state of a controller, one repository per manager.
-- - Controller/Session, Controller/Membership, Controller/Routing: the managers of
--   controller/src/session.rs, membership.rs and routing.rs; Routing/Strategy has the strategies.
-- - Controller/Services: the handlers of controller/src/services: `Guards` (mod.rs), `Auth`
--   (auth_service.rs), `Info` (info_service.rs) and `Routes` (route_service.rs). Auth/Login,
--   Auth/Ping, Routes/Initializing, Routes/Hops, Routes/Stored, Routes/Cases, Routes/Redeeming, Access,
--   Total and KeepAlive prove what they do.
-- - Controller/Runs: a controller from its start through any sequence of requests, announcements,
--   seedings and rounds. `Sound` says what holds of its state, Runs/Sessions, Runs/Conversations,
--   Runs/Handlers and Runs/RouteHandlers that each of these keeps it, and Runs/Safety what follows.
-- - Controller/Startup: controller/src/main.rs; Startup/Announcing proves what becomes of the session
--   that the controller sets for itself.
-- - Gateway/Clients: the traits of the gRPC clients (gateway/src, proxy/src/clients). Gateway/Session
--   and Gateway/Auth: auth_client.rs and auth.rs of gateway/src. Gateway/RouteClient and
--   Gateway/AuthService: clients whose channel reaches the controller of Controller/.
--   Gateway/ProxyClient and Proxy/Clients: clients that reach a proxy, a client and a controller.
--   Auth/Handler, Auth/Client and AuthService/Lifecycle prove what they do.
--   Gateway/Channels and Proxy/Clients/Channels: the same clients from their making on, with the
--   opening of their channels; Proxy/Clients/Connected proves what becomes of their calls.
-- - Crosscutting/Serving, Controller/Server, Proxy/Server and Client/Server: the gRPC servers of
--   controller/src/services/mod.rs, proxy/src/services/mod.rs and client/src/services/mod.rs, and
--   `main` of the proxy and of the client. Controller/Server/Main: `main` of the controller, and
--   Main/Starting proves in which state it starts. Proxy/Server/Starting proves what holds when a proxy runs.
-- - Proxy/Service: proxy/src/services/proxy_service.rs. Service/Gate and Service/Forward prove which
--   commands it executes.
-- - Client/Command and Client/Commander: client/src/command.rs; Command/Parsing proves what a typed
--   line becomes, Commander/FirstHop where a message goes first. Client/Prompt: the command loop of
--   client/src/main.rs. Client/Landing: client/src/services/landing_service.rs, and Landing/Delivery
--   proves what a client receives.
-- - Network: the components composed. A `World` is a controller and the channels of the clients, and
--   `network` makes the clients that a component asks its factories for, each of which runs the
--   service at its other end on that world. `Sessions`, `Steps`, `Talks` and `Calls` follow a
--   conversation from call to call, `Journey` over the proxies, `Delivery` from the sender to the
--   recipient, and `Typed` from the line that is typed to the text that is received; `Asking`
--   follows a question for the status.
-- - Examples: concrete states, and the theorems at them.
--
-- A handler is a function of its request, the instant at which it runs (`now`, in milliseconds) and
-- the state; it gives a result and the next state. New uuids, the choice of the `rand` crate, the
-- time stamp of a ping and the records of the CSV file are arguments. A handler runs as one step, so
-- that a run of the controller is a sequence of requests, announcements and rounds. What happens
-- between two locks is modelled in two places, `Routing.redeem_route_amid` and
-- `Services.Auth.ping_amid`, which take what others do there as an argument; elsewhere it is not.
-- What `start_server_handler` spawns is a task of its own: an error or a panic in it leaves `main`
-- without a server, and running.
-- The rounds of the tasks that remove what has expired are operations too. Machine integers are
-- natural numbers, with the reduction of a port to 16 bits and of a count to 32 bits written out.
-- The clients of a proxy or a client are actions on the state of what they reach; where that is the
-- controller, a status comes back as its text, and a panic as an error. Every loop is over a list
-- or a text, but for the authentication task, which runs for the number of times that it finds its
-- token not cancelled: any number, so that every run that is cancelled at some time is covered. The
-- clients of a network may call each other as often as the network has draws (of an instant, of new
-- uuids and of a random choice), one for each visit of the controller; a conversation takes four,
-- and with four a message arrives.
--
-- Not modelled: TLS and the transport of gRPC, for which `tonic` is an argument, the tracing layer,
-- what follows the signal that ends a program, the terminal, and the expiry of keys inside Redis between two commands.
pub mod Prelude
pub mod Crosscutting
pub mod Controller
pub mod Gateway
pub mod Proxy
pub mod Client
pub mod Network
pub mod Examples
