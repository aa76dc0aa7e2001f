-- ===== src/Lib.antt =====
-- A load balancer for TCP and HTTP: one thread of an epoll reactor accepts clients, chooses a backend
-- for each, and moves bytes between the two connections; a second thread checks the backends.
--
-- Parts and files. Paths are those of the repository.
--   Base          numbers, lists, byte strings and maps that the parts share
--   Backend       Backend/Node: BackendNode (src/core/backend_node.h); Backend/Pool: BackendPool
--                 (src/core/backend_pool.cpp), select_backend and what it calls, a function each
--   Memory        MemoryBudget (src/core/memory_budget.h); Memory/Atomic: its loops around
--                 compare_exchange_weak, as steps of any number of threads
--   Net           Net/Connection: Connection (src/net/connection.h, connection.cpp)
--   Forward       Forward/Buffered: DataForwarder::forward (src/core/data_forwarder.cpp);
--                 Forward/Http: HttpDataForwarder (src/core/http_data_forwarder.cpp)
--   Health        HealthChecker (src/health/health_checker.cpp); Health/Status: the status line
--   Session       SessionManager (src/core/session_manager.cpp)
--   World         the tables of src/core/load_balancer.h that its parts share; World/Gauges: the
--                 gauges and counters of src/metrics/metrics.cpp
--   Manager       ConnectionManager (src/core/connection_manager.cpp)
--   Pooling       ConnectionPool (src/core/connection_pool.cpp); Pooling/Manager: its
--                 ConnectionPoolManager
--   Admission     the gates of src/core/load_balancer.cpp: is_ip_allowed, check_rate_limit,
--                 cleanup_rate_limit_entries, handle_accept, try_dequeue_clients
--   Timeouts      src/core/backpressure_manager.cpp, src/core/retry_handler.cpp, and the sweeps
--                 check_request_timeouts and check_backpressure_timeouts
--   Connector     BackendConnector::connect (src/core/backend_connector.cpp), through its retries
--   Events        EventHandlers (src/core/event_handlers.cpp); Events/Wiring: callbacks that
--                 src/core/load_balancer.cpp gives them
--   Reload        the backends in apply_config, cleanup_drained_backends and add_backend
--                 (src/core/load_balancer.cpp)
--   Shutdown      shutdown_gracefully, check_graceful_shutdown and force_close_all_connections
--                 (src/core/load_balancer.cpp)
--   Http          Http/Message, Http/RequestParser: src/http/http_request.cpp; Http/ResponseParser:
--                 src/http/http_response_parser.cpp; Http/Handler: src/http/http_handler.cpp;
--                 Http/Response: HttpResponse (src/http/http_response.cpp)
--
-- How the code is read. A method is a function from the state that it reads to the state that it
-- leaves, with its results. A `std::shared_ptr<BackendNode>` is a number, and the nodes are a function
-- of it; a connection's peer is its descriptor; a `std::unordered_map` is an association list in the
-- order of its iteration. The clock, the socket, OpenSSL, the random failure of a weak exchange and
-- the arithmetic of doubles are arguments: Backend/Float names the laws of division and order that
-- least connections relies on. Calls of the reactor and of callbacks are recorded in order. A mutex
-- makes a method one step. An iterator or a connection that is used after it is gone gives the result
-- `undefined`.
--
-- Bounds. uint32_t and uint64_t counters wrap as they do in the code, written `u32` and `u64`. Times
-- are numbers of the unit that the code compares, and a signed difference is compared as a sum. Most
-- loops follow a list. On fuel run the printing of a number, whose digits are as many as the number at
-- most; the loops over the lines of a buffer and over the cookies of a header, with one more than the
-- bytes there are, since each round takes at least one; and `connect` with its retries, of which there
-- are at most three.
--
-- Not modelled: the other settings in apply_config, the splice forwarder, the thread pool and the
-- reactor; nor the listener, TLS contexts, loggers, the metrics server and the reading of files, which
-- keep no state of the core.
pub mod Base
pub mod Backend
pub mod Memory
pub mod Net
pub mod Forward
pub mod Health
pub mod Session
pub mod World
pub mod Manager
pub mod Pooling
pub mod Admission
pub mod Timeouts
pub mod Http
pub mod Connector
pub mod Events
pub mod Reload
pub mod Shutdown
