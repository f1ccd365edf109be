-- ===== src/Lib.antt =====
-- A verification library for sginx, a small event-driven web server in C.
--
-- The program. A loop in src/core/sgx_rush.c waits for sockets, lets the timers of
-- src/event/event_timer.c expire, and hands readable connections to the code of src/http, which
-- parses requests from a ring buffer. The timers stand in the binary heap of
-- src/core/sgx_priority_queue.c. The files do not all compile; where they do not, the model reads
-- what they evidently mean, and the head of the file that models the place says so.
--
-- The modules.
--   Base           shared names, tests on numbers, the results of calls (Base/Run), and buffers into which
--                  bytes are stored (Base/Fill).
--   PriorityQueue  src/core/sgx_priority_queue.c and .h: the array as a function with a number of
--                  cells, push, pop, resize, clear and the sifts, each access checked. The proofs
--                  are in Items (items as counts), Order (the heap order and the comparator's
--                  interface), Up, Push, Room (push in any order), Down, Pop, Kept (the order behind
--                  pop) and Clear.
--   Timer          src/event/event_timer.c and .h: the timers over the priority queue and a memory
--                  of timer nodes. The proofs are in Find, Expire, Add and Quiet.
--   Http           src/http/http_request.h and http.h: the request. Loop is the loop that both
--                  parsers of src/http/http_parse.c are, with the parser as a function of its
--                  bytes (Loop/Feed) and called again for more bytes (Loop/Resume). Line is
--                  sgx_http_parse_request_line, Headers is sgx_http_parse_request_body.
--                  Handle is src/http/http_request.c, what the header fields ask for. ReadLoop is
--                  sgx_request_run of src/http/http.c, the reads into the ring.
--                  Flow puts the stages together: the reads, both parsers and the handlers.
--   ListHead       src/core/sgx_list.h: the doubly linked rings in memory. Ring says which memory
--                  holds which list; Add, Del and Walk are about the operations and traversals.
--   ThreadPool     src/test/sgx_thread_pool.c: a step relation of the workers, of the callers that
--                  add work and of the one that destroys the pool. Invariant says what always
--                  holds; Worker, Others and Destroy are about the steps, Reach and Progress about runs.
--   EventLoop      the loop in main of src/core/sgx_rush.c, over the timers: Accept is about new
--                  connections, Handlers about what the timers' handler closes and frees, Round about a
--                  round without new connections, Connections and Rounds about any number of rounds.
--                  Sockets holds sgx_get_listen_fd and sgx_socket_unblock, Epoll the wrappers of
--                  src/core/sgx_epool.c, Start what main does before its loop, Main the proofs about
--                  the whole.
--   Lines          Readline and Writeline of src/core/sgx_rush.c, over what read and write answer.
--   Palloc         src/core/sgx_palloc.c and .h: memory pools over the answers of the system. Alloc
--                  holds the allocations that may need a block of their own and sgx_pfree, Release
--                  the cleanups, reset and destruction. Carve and Block are about small
--                  allocations, Linked and Operations about the blocks in sequences of operations,
--                  Live and Accounts about large blocks, Files about the cleanups of files.
--   Cycle          sgx_init_cycle of src/core/sgx_cycle.c over Palloc, as far as it goes; Null is about
--                  what it returns.
--   Slab           src/core/sgx_slab.c and .h as far as they go: Layout is about sgx_slab_init, Slots
--                  about the slot that sgx_slab_alloc_locked chooses, Chunks about its search for
--                  a chunk.
--   Conf           read_conf of src/core/sgx_util.c: Text is about the functions on strings that it
--                  calls, Settings and Put about one line, Read about the loop, Stops about any
--                  file and about the error.
--   Mini           src/test/sgx_mini.c: sgx_get_fd_line, in Request the reading of the request line
--                  in sgx_request_accept, and in Serve the whole of sgx_request_accept and
--                  sgx_send_file, as what they do to the connection. Cgi is sgx_request_cgi as the
--                  calls that it makes: Loops and Header are about its header lines, Ends about the
--                  pipes, Posted about a POST; Environ is the environment that the script gets. Start is
--                  sgx_start and main.
--
-- Numbers. size_t values wrap at 2^64 and ints at 2^32 where the code computes with them.
-- Pointers are addresses, indices or offsets; an access outside a block is a fault.
--
-- Fuel. The sifts, clear and the timer loops take one more round than the queue has items, and the
-- theorems show that this is enough. The parsers' loops count the bytes that are left. The loops
-- over reads and writes go along the list of what these calls answer, and the event loop along the
-- list of its rounds. The loops over a file or over
-- header lines take one round more than there are bytes, and those over the bits of a word 64 or 65.
--
-- Parameters. The answers of malloc, sgx_alloc, sgx_memalign, gettimeofday, read, write, stat,
-- fopen, pipe, fork, the calls for sockets and epoll, strptime and mktime, the output of a script,
-- the events that the loop visits, and what a compiler makes of the undefined shift `c >> 'Z'` come
-- from outside: they are arguments. The calls of free are recorded, and otherwise taken to leave
-- the cells alone. What POSIX says of threads is in the step relation of ThreadPool.
--
-- Not modelled. The rest of sgx_slab_alloc_locked and of sgx_init_cycle, which break off unfinished,
-- and the code in comments. sgx_epool_wait returns nothing, so the events of a round may be any. A
-- script whose output does not end is left out.
pub mod Base
pub mod PriorityQueue
pub mod Timer
pub mod Http
pub mod ListHead
pub mod ThreadPool
pub mod Lines
pub mod EventLoop
pub mod Mini
pub mod Palloc
pub mod Conf
pub mod Slab
pub mod Cycle
