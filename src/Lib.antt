-- ===== src/Lib.antt =====
-- user-center: an HTTP service for user accounts in C++, on an epoll event loop, with MySQL for the
-- data and Redis for tokens and caches.
--
-- How the parts interact. A connection reads bytes into a Buffer (include/utils/Buffer.h,
-- src/utils/Buffer.cpp); HttpContext (include/http/HttpContext.h, src/http/Context.cpp) takes requests
-- out of it. The message callback hands a request to the thread pool (include/threadpool/ThreadPool.h,
-- src/threadpool/ThreadPool.cpp), where the router (src/router/Router.cpp) finds its handler
-- (src/service/UserHandler.cpp). A handler verifies the token with TokenManager
-- (src/auth/TokenManager.cpp), calls UserService (src/service/UserService.cpp), which leases a
-- MySQLClient from the connection pool (src/db/MySQLConnectionPool.cpp), and fills an HttpResponse.
-- The acceptor (src/net/Acceptor.cpp) takes new descriptors, TcpServer (src/net/TcpServer.cpp) keeps
-- their connections (src/net/Connection.cpp), and a channel (src/net/Channel.cpp) tells epoll through
-- EpollPoller (src/net/EpollPoller.cpp) what a descriptor waits for. EventLoop (src/net/EventLoop.cpp)
-- runs functors of other threads, TimerQueue (src/net/TimerQueue.cpp) callbacks by time. All parts log
-- through AsyncLogger (src/utils/Logger.cpp). main.cpp holds the routes and the message callback.
--
-- Files and sources. A definition keeps the source's name in the spelling of this library.
--   Base: tests on numbers, lists, byte strings, decimal numbers and strtol.
--   Buffer: the class Buffer. `store`, `read_index` and `write_index` are its three members; Memory,
--     Effects and Io are what each operation does to the readable bytes, Queue the contract.
--   Http/Request, Http/Context, Http/Response: the classes of include/http and src/http. A turn of the
--     loop of parse is `round`. Context/Stream is the same parser on a plain text, Context/Turns,
--     Context/Chunks and Context/Prefixes are about the loop, Context/Lines and Context/Messages about
--     a request as a client writes it. Response/Client is a client that reads responses,
--     Response/Lines and Response/Framing are about what it reads.
--   World: the libraries that the services call, as the parameter `Env`, and computations that may
--     throw. World/Redis says what Redis documents of its commands.
--   Common: the headers of include/common; Common/RateLimiter/Window is about one window.
--   Auth: TokenManager, with the life of a token in Auth/Tokens.
--   Db/Client and Db/Pool: MySQLClient, with its connection in Client/Connect, and
--     MySQLConnectionPool. A locked section is one function; what the connector answers is an
--     argument. Db/Pool/Count is the invariant of the pool; Db/Pool/Waiting has the callers that sleep on
--     the condition variable, Waiting/Sleepers what holds of them.
--   Router: the route table and dispatch.
--   Service/Uuid, Service/Users, Service/Profile: UserService. Service/Handlers: UserHandler,
--     with the updates of a profile and of a password in Handlers/Updates.
--   Net/TimerQueue: the timers. Its queue is a list in the order of time.
--   Net/Channel: Channel and EpollPoller; Channel/Masks says what epoll documents, Channel/Interest
--     and Channel/Calls what the calls of a channel come to.
--   Net/Connection: the class Connection. Writing and Sending are about its output, Reading and
--     Requests about its input and its parser.
--   Net/EventLoop: the queue of functors and the eventfd; EventLoop/Steps has the steps of the threads,
--     EventLoop/Waking what they keep.
--   Net/Server: TcpServer. A shared pointer is a number. Server/Table and Server/Serving are about the
--     table of connections and epoll. Net/Acceptor: Acceptor, with its constructor in
--     Acceptor/Opening and its loop in Acceptor/Loop. Net/InetAddr: InetAddr.
--   Net/Reactor: the connections in their server. A connection's callbacks run with the server as the
--     world around it, and its close callback is the server's, which lets go of the object: a use of it
--     after that is undefined behaviour, unless a timer or the task of a worker holds it (`held`); Reactor/Laws says what the system
--     calls document, Links, Calls and Events follow the callbacks of one event, Serving is one event
--     and Steps any number of them.
--   Logger: AsyncLogger. A locked section is one function; Ordering and Turns are about one call and
--     one turn of the writer, Writer about any order of them.
--   Main: the routes, the message callback and the task of a worker. Main/SetUp is what main builds,
--     with the handler of SIGINT; SetUp/Start is about what runs from there. Main/Exchange is a request
--     without a token from its bytes to the bytes of the answer, Main/Limits the limit of requests.
--   ThreadPool: the queue of tasks, the turns of the workers, the cleanup.
--   Examples: a toy world for the services, a toy kernel for the network, and each part at concrete inputs.
--
-- Fuel. The loop of parse has two more than the readable bytes: a turn that goes on takes two bytes
-- off the buffer or leaves the headers for the body. The loop of handleRead has one more than the
-- number of timers: a timer that is due is removed or goes back with a time in the future. The loop of
-- the acceptor takes any fuel; more than the number of connections that wait is enough.
--
-- Integers. The two size_t counts that can wrap, those of the connection pool, are taken modulo
-- 2 ^ 64. The indices of a Buffer are bounded by the memory and are plain numbers. An int from the
-- outside is an integer with its range as a condition where it is printed and read back.
--
-- Not modelled: the Redis client that TokenManager::init makes; the clock, the thread's number, the path
-- of the file and its renaming in the logger, whose formatted text is an argument; the test programs
-- and demonstrations (server.cpp, client.cpp, src/net/netTest.cpp, src/db/dbTest.cpp); and the
-- libraries that the repository does not hold or only copies (include/nlohmann/json.hpp), which are
-- parameters, as the system calls are. What a log call prints is left out of the other parts. In the
-- steps of a server its timers are steps of their own, and the callback of main is a parameter. The
-- conversions of addresses and the byte orders of the C library are parameters. Expiry of Redis keys
-- by time is no part of the laws. The
-- hash order of a response's headers is a parameter.
pub mod Base
pub mod Buffer
pub mod Http
pub mod World
pub mod Common
pub mod Auth
pub mod Db
pub mod Router
pub mod Service
pub mod Logger
pub mod Main
pub mod Net
pub mod ThreadPool
pub mod Examples
