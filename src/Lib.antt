-- ===== src/Lib.antt =====
-- linear-fcgi: a FastCGI gateway between HTTP clients that poll and TCP backends.
-- A web server passes requests to the FastCGI thread, which keeps a client object per session; a
-- second thread runs libuv and talks to the backends. The threads share the client storage and a
-- queue of requests.
-- Parts, files, and the code that they model:
-- Common: Booleans, lists, C strings, finite tables and association lists.
-- Url models src/urlendecode.c: url_encode and url_decode over the bytes of a C string. The
-- allocator is an argument, from a size to whether there is memory.
-- Queries models src/linear_fcgi_queries.cc: split, parse and the getters of Queries.
-- Client models src/linear_fcgi_client.cc. Client.State has the fields; Client.Callbacks the
-- methods that the libuv thread calls (_connect is run_connect, _write is run_write, _disconnect is
-- run_disconnect); Client.Calls those of the FastCGI thread. A method takes what the system answers
-- and returns the client and the list of calls that it makes (Effect). connect waits on a condition
-- variable: what the libuv thread does to the client during each wait is an argument (Wake), and
-- the result is none while the list of waits ends without an answer. Client.Teardown has a step
-- relation over the critical sections of both threads.
-- Storage models src/linear_fcgi_client_storage.cc: the map from session ids to clients;
-- Storage.Spec has the abstract storage, a function and a number.
-- Loop models src/linear_fcgi_loop.cc over a world of storage, request queue and calls made. The
-- storage owns the clients and a pointer to a client is its session id, so none as the result of a
-- step is the use of a deleted client. Loop.Due says which callbacks libuv may make: the calls of a
-- world are there those that libuv has not finished. Loop.Start is Loop::run, onAlloc and onWrite.
-- Queue models src/linear_fcgi_queue.h: a pointer is a number, the heap a map from pointers to
-- nodes, and an access of an address without a node has no result. produce and consume are made of
-- one definition per shared access; Queue.Threads interleaves those of one producer and one
-- consumer as steps. The other parts keep their queues as lists.
-- Buffer models tcp_buffer_t of src/linear_fcgi_client.h over a heap of blocks, and store and fetch
-- are the copies of it in Client::onRead and in a round of Server::onPoll. Elsewhere a tcp_buffer_t
-- is the list of its bytes.
-- Response models src/linear_fcgi_response.cc and .h; Request models src/linear_fcgi_request.cc and
-- src/linear_fcgi_env.cc, with the static text of getQueryString and errno as a state; errno is
-- taken to be set by strtol alone.
-- Uuid models src/uuid: Uuid.Fields and Uuid.Hex are _uuid_impl.c, Uuid.Source is _uuid_time.c,
-- _uuid_clock.c, _uuid_node.c and _uuid_generate, Uuid.Api is uuid.c. The clock sequence is a
-- state. Uuid.Sample is the program src/uuid/samples/uuidgen.c.
-- Log models src/linear_fcgi_log.cc and .h: the level, the file and the records that were written;
-- Log.Clock is GetDateTime, with the local time as an argument. Main models app/linear_fcgi.cc over
-- getenv: what it logs, and the settings it starts the server with.
-- Server models src/linear_fcgi_server.cc: Server.Origin is getBackend and isAllowOrigin,
-- Server.Handlers the handlers and the dispatch of run, Server.Run its loop. Server.Lifetime and
-- Server.Consistency have the runs of both threads. Server.Http and Server.Upload put the parts
-- together, from the variables of a request to its response; Server.Losing is a poll that is cut
-- off.
-- Locks models the mutexes: Locks.Methods and Locks.Threads give, for the methods of
-- src/linear_fcgi_client.cc, src/linear_fcgi_client_storage.cc and src/linear_fcgi_log.cc, for the
-- handlers of src/linear_fcgi_server.cc and for the callbacks of src/linear_fcgi_loop.cc, the list
-- of what they take and give; Locks has the steps of the two threads that do so, of which the waits
-- of connect are an argument, as in Client. The other parts take what a lock encloses as one step.
-- Bounds and fuel: machine words are natural numbers with the wrap-around written out. The loop of
-- a poll has 16385 rounds of fuel: each round but the last adds at least one of fewer than 16384
-- bytes. decimal has one more round than the number, which is divided by ten in each.
-- The loops of the queue take their fuel as an argument; more fuel than the heap has nodes is
-- enough.
-- What stands outside src is a parameter: malloc, getenv, fopen, the time, FCGI_fread, getaddrinfo,
-- libuv's answers, Base64, PCRE (the argument matches) and the parsed configuration.
-- Not modelled: FCGI_Accept; what uv_run does besides the callbacks; the Apple branches of
-- _uuid_get_node and GetDateTime and the Windows one; the debug forms of the log, and the place in
-- the source that they print; other clients' callbacks while connect waits, which Locks has the
-- mutexes of and no more; reordering by the processor across the barriers of the queue.
pub mod Common
pub mod Url
pub mod Queries
pub mod Queue
pub mod Buffer
pub mod Client
pub mod Storage
pub mod Loop
pub mod Response
pub mod Request
pub mod Uuid
pub mod Log
pub mod Server
pub mod Locks
pub mod Main
