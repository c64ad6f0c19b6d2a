-- ===== src/Lib.antt =====
-- Verification of magit-server, the C program that answers status requests for Magit.
--
-- The server reads requests from its standard input, each a msgpack map behind a length of four
-- bytes. It queues a git status for each, collects some twenty queries of libgit2 in threads, and
-- writes one response, again a msgpack map behind its length.
--
-- src/magit_server.c, the framing: Server models consume_bytes and read_stdin with the static
--   variables as the record Parser, the arrays as lists of cells, and memcpy past the end of one
--   as a fault. Server/Spec is the framing one byte at a time; Server/Buffers, Server/Header,
--   Server/Refine and Server/Frames relate the two.
-- src/msgpack_handler.c, msgpack_handler.h and codes.h: Message models msgpack_handler_recv,
--   Message/Response msgpack_handler_buf_create and msgpack_handler_send; Message/Pairs and
--   Message/ReadBack hold their theorems.
-- src/git_handler.c, the queries: Git/Api is the interface of libgit2 as a record of functions,
--   Git/Store the output buffer, the handles held and the levels logged, with a fault for a handle
--   that is freed and not held. Git/Refs, Git/History, Git/Branches, Git/Status, Git/Config,
--   Git/Diffs, Git/Worktrees, Git/Tags and Git/Graph model the functions, each theorem in a child.
-- src/git_handler.c, the log: Git/Log models gh_log with its settings, its threshold and its
--   lines.
-- src/git_handler.c, captured commands: Git/Capture models run_git_capture, which runs a command
--   and reads its output through two pipes; the answers of the system are its parameter.
-- src/git_handler.c, the requests: Worker/Request is git_root_req_T and its cleanup, Worker/Tasks
--   the task wrappers, Worker/Threads the answers that the threads give, Worker/Handler the
--   worker, its callback, the queue and repo_init. Worker/Gates, Worker/Collected, Worker/Whole
--   and Worker/Life hold their theorems.
-- The whole: Service puts the parts together as a step relation, in which input is read and
--   finished work comes back in any order; Service/Conserve is about its output.
-- The fuzzy finder, a second program that lies beside the server: Finder/Input models read_stdin
--   of src/vim9-fuzzy.c, Finder/Jobs the queue of work of json_msg_handler.c, search_helper.c and
--   grep.c with its flags and its timer as a step relation, Finder/Lines the loading of files of
--   search_helper.c, Finder/Fuzzy the recursive matching of a word and its score and Finder/Query
--   the search of fuzzy.c, Finder/Escape and Finder/Reply the JSON text of json_msg_handler.c,
--   Finder/Parse its parsing, Finder/Grep what a grep of grep.c writes, Finder/Pool the string
--   pool of str_pool.c, Finder/Mru the loading of recent files of mru.c, Finder/Yank the list of
--   yanked texts of yank.c. Finder/Text holds the functions of C's library that these call,
--   Finder/Growth the doubling of their arrays. Each theorem is in a child.
-- Base passes on library names and declares the integers, lengths and tests over the native
--   numbers.
-- Tests holds one repository and one run of each theorem.
--
-- The parts meet through parameters: the parser hands a message to `recv`, which
-- msgpack_handler_recv fills, and that queues through `queue`, which git_handler_queue_git_status
-- fills; the worker runs the queries and hands the response's record to Message/Response.
--
-- Bounds and fuel: the loop of consume_bytes runs on fuel, the number of bytes that are left; each
-- round takes at least one, so the fuel is enough and the theorem of consume_bytes says so.
-- fuzzy_match_recursive runs on the depth that its calls may nest, of which eleven are enough by
-- its limit of ten calls. Numbers are natural numbers with the wrap-around of a conversion written
-- out. The loop of load_lines_from_fp_to_file_info runs on the length of its input and two rounds
-- more, as each round takes a byte. All other loops are over lists: an iterator of libgit2 is the
-- list of what it hands out with the code that ends it, so it is taken to be finite.
--
-- Not modelled: of the fuzzy finder, which the server's build leaves out, the scores of write_mru;
-- jsmn, whose tokens are a parameter; main and the set-up of libuv; how vsnprintf formats a
-- message and the clocks; ext/klib, whose string functions are the appending of bytes; the Lisp
-- and the documents. malloc, calloc and pthread_create are taken to succeed. How the threads of a
-- request interleave is left out: they share the log and libgit2's own state, and are joined
-- before an answer is read. git_handler_repo_deinit, which only frees, is left out.
pub mod Base
pub mod Finder
pub mod Git
pub mod Message
pub mod Server
pub mod Service
mod Tests
pub mod Worker
