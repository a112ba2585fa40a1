-- ===== src/Lib.antt =====
-- The asynchronous HTTP server library of include/: an epoll reactor, the server's connections to its
-- clients, its connections to other servers, its connections to PostgreSQL with their pool, and the
-- two programs of example/ that use them.
--
-- The parts and how they interact. `IOReactor` (include/reactor.h) keeps for every tracked socket a
-- callback and a priority in two `ThreadSafeMap`s (include/thread_safe_map.h), waits on epoll, and
-- runs the callbacks of the sockets that are ready. A connection registers its `handleEvent` as the
-- callback of its socket. `handleEvent` does the socket calls, feeds llhttp or libpq, moves the state
-- of the connection, changes the registration or ends it, and runs the application's callback.
--
-- Which file models which part:
--   * Base and below: Booleans, lists over the native numbers, integers, keys and bytes.
--   * StdMap: `std::unordered_map`; SafeMap: `ThreadSafeMap`, with a method as one step, and
--     SafeMap/Threads the same with its mutex, several threads, and each line as a step.
--   * Epoll: event masks, `epoll_ctl` as an interface with its laws, and the epoll wrappers of
--     include/socket_utilities.h.
--   * Reactor: `IOReactor`. `Tracker` holds the epoll instance and the two maps, `add_track`,
--     `modify_track`, `remove_track` and `async_accept` are its methods, and `reactor_run` is the
--     loop `reactorRun`; Reactor/Dispatch follows it event by event, and Reactor/Registering has the
--     priority of an fd from the calls alone.
--   * Http: include/data_types.h, and llhttp as an interface; Http/Reading has a reader of
--     responses, from the format of HTTP/1.1, that states what the programs send; SocketIo: what the
--     `recv` and `send` calls of one event give; Calls: what a handler does to the reactor and to the
--     socket.
--   * Client: `Clientconnection` of include/http_server_type.h; Client/Callbacks has the functions
--     that llhttp calls, Client/Parsing the run of llhttp over the receive buffer, and
--     Client/Handler `read`, `write` and `handleEvent`.
--   * Api: `APIconnection` of include/request_connection_type.h, in the same files.
--   * Db: `Dbconnection` of include/db_connection_type.h; Db/Results has the loop over the results of
--     a query and Db/Handler `handleEvent`.
--   * Pooler: `DBpooler` of include/db_pooler.h. `on_event` is an event on one of its connections, and
--     `run` makes the nested calls of `sendQuery` and of the callbacks, one step for a frame.
--   * Registry: the map `isAlive` from the ids to the clients that are not deleted, which the
--     constructor and the destructor of `Clientconnection` keep and `getParent` of the other connections
--     reads.
--   * Sockets: the functions of include/socket_utilities.h that open and close sockets and make
--     them listen.
--   * Server: `HttpServer` of include/listening_server.h.
--   * Printing: how the programs print numbers, and `printHttpResponse`.
--   * Books: example/server.cpp. Books/Text has the texts that it builds, Books/Handlers its callbacks,
--     Books/Serving the reactor's callbacks and `main`; Books/Safety, Books/Sharing,
--     Books/Answering, Books/Visiting, Books/Failing and Books/Rows are proofs.
--   * Fetch: example/client.cpp.
--   * Tests: concrete instances of the interfaces, and the theorems applied to them.
--
-- Conventions. A method is a function from the object to the object. A handler also returns the list
-- of its calls on the reactor, on the socket and of the application's callback, in their order; the
-- callback always comes last, so that the list determines the effect. Sockets are integers, bytes and
-- counts are natural numbers without a bound, since the counts are those of bytes and objects in
-- memory. Loops over `recv`, `send`, `epoll_wait` and
-- `PQgetResult` recurse on the list of what the calls give, up to the result that ends the loop, and
-- so there is no fuel. The parser's run recurses on the number of bytes that are left. The calls of the
-- pool nest as deep as the application's callbacks make them, and `run` takes a number of steps;
-- `work` is the number that its theorem asks for, given a cost of each callback; `reply_cost` is the
-- cost of the callbacks of example/server.cpp.
--
-- What stands outside: the kernel's epoll is the interface `Epoll` with the laws `EpollLaws`; llhttp
-- is the interface `Llhttp`, a machine that reads byte after byte; what libpq answers is an argument.
-- The JSON library is the record `JsonLib`, `new` a function that gives a free address or none, and
-- what the system calls answer in an event is a record or a list.
-- Not modelled: the vendored libraries, which the sources only call; that libpq may close the socket
-- of a connection by itself, which would take it out of epoll; log output to std::cerr; memory
-- that is freed (but for the endpoints in Sockets and the event array in Reactor/Lifetime), which no
-- other part reads.
pub mod Base
pub mod StdMap
pub mod SafeMap
pub mod Epoll
pub mod Reactor
pub mod Http
pub mod SocketIo
pub mod Calls
pub mod Client
pub mod Api
pub mod Db
pub mod Pooler
pub mod Registry
pub mod Sockets
pub mod Server
pub mod Printing
pub mod Books
pub mod Fetch
pub mod Tests
