-- ===== src/Lib.antt =====
-- A model of LeftHookRoll, an HTTP/1.0 server. A configuration file is parsed into servers and their
-- locations. Each client has a connection, which reads a request, decodes its body into a data store,
-- has the response built, and sends the response in slices. The server manager calls these operations as
-- the sockets become ready, gives the connections that process their turns, and reads the output of CGI
-- scripts, whose processes the CGI manager starts.
--
-- Parts and files:
--   Prelude          Boolean tests, lists and options over native numbers, ℤ, and results of methods
--                    that may throw: `ok` and `threw` both carry the object that the method leaves.
--   Text, Dict       std::string and std::map<std::string, std::string>: bytes, searches, trimming,
--                    strtoll and strtoul, and association lists in the order of the keys.
--   Table            std::map and std::set with integer keys.
--   Methods          src/AllowedMethods.cpp: the bitmap of the methods.
--   Conf             src/LocationConf.cpp and src/ServerConf.cpp.
--   ConfigParser     src/ConfigParser.cpp: Tokens is _tokenize, _peek, _consume and _expect; Values the
--                    validators; Directives the handlers of directives; Blocks the block parsers.
--   DataStore        src/DataStore.cpp: Kernel the replies of the system calls, Files the operations,
--                    Copies the copy constructor and the assignment.
--   Request          src/Request.cpp: Line the request line and the header lines, Headers parseHeaders,
--                    _parseCookies and _typeOfReq, Body processBodySlice.
--   Response         src/Response.cpp: Paths and Pages the functions of the unnamed namespace, Build
--                    the header block, the error pages and _serveFile, Handlers GET and DELETE, Uploads
--                    POST, Dispatch buildResponse and _handleCGI, Send sendSlice, Output readCgiOutput,
--                    Cgi the answer that a script's output makes.
--   CgiManager       src/CGIManager.cpp: State the object and a script's paths, Environment prepare,
--                    Processes the parent's side of execute, isDone, the set of the processes and its
--                    cleanup, Child the other side.
--   Connection       src/Connection.cpp: Reading is handleRead, Processing is process and handleWrite,
--                    Copies the copy constructor and the assignment, as also in Request and Response.
--   ServerManager    src/ServerManager.cpp: Polling addPollFd and the tables of the pipes, Listening the
--                    constructors and the sockets that accept, Clients accepting, events and dropping,
--                    Scheduling the round robin, Pipes and Timeouts the scripts' output and the sweeps,
--                    Loop run.
--   Program          src/main.cpp.
--   Tests            runs on concrete inputs.
--
-- A method becomes a function from the object to a result. An exception keeps its class, and of a
-- ClientException the status; messages, which only reach the log, are left out. Pointers to the
-- configuration are options; getters are fields. Members that no method reads again are left out:
-- _chunkSize, _chunkDecodeOffset and _ramParsePos of a request, _currentChunkSize of a response, the
-- address of a connection and its unused buffers and sizes, _query of a CGI manager.
--
-- Pointers to connections are addresses: the manager's model holds the objects that are alive by their
-- addresses, and a use of any other address is the outcome `dangling`. Where an object is put, and which
-- descriptor is given, is said by the accepted connection.
--
-- System calls are lists of replies: a store's open, read and write, and a socket's send, answer as the
-- list says, so that the theorems speak of every behaviour of the kernel; a list that is used up serves
-- in full. The files that a response looks at, the time, and the launch of a script are a record of
-- functions (`Site`), and getaddrinfo is a function on host names. What recv, accept, read on a pipe,
-- waitpid, pipe, fork and the calls of a child return are arguments; `run` is given its turns, each with
-- the events of epoll_wait and what their handlers find.
--
-- A size_t keeps its wrap-around where two sizes are added or subtracted (`add_size`, `sub_size`);
-- positions in a text that is in memory do not wrap. atoi is that of glibc, which keeps the low 32 bits.
--
-- Loops that are not structural take fuel. The parser's loops take one more than the number of tokens
-- that are left, write_all one more than the number of bytes, the chunk loop one more than the length
-- of the buffer, and the loops over lines and cookies the length of the text; each round uses up at
-- least one of these. A pass of the round robin takes one more than the queue's length and the budget.
-- Running out is the exception `out_of_fuel`, which no sources throw.
--
-- Not modelled: the setting of the signal handlers, the reading of the configuration file, the
-- descriptors that a child closes, and log output. The static set of processes is
-- followed in the CGI manager's own operations; a launch is a function of the `Site` that says which
-- object results, and the server manager is given the set where it reads a script's output.
pub mod Prelude
pub mod Text
pub mod Dict
pub mod Table
pub mod Methods
pub mod Conf
pub mod ConfigParser
pub mod CgiManager
pub mod DataStore
pub mod Request
pub mod Response
pub mod Connection
pub mod ServerManager
pub mod Program
pub mod Tests
