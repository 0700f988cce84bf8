-- ===== src/Lib.antt =====
-- processx runs and watches child processes from R. This library models the parts of its C code
-- that keep state or compute, as they are built on Unix, and the command line, the search path, the
-- environment and the buffer of handles of the Windows build.
--
-- The parts and their files:
--
-- Base: names of the libraries, C comparisons as Boolean tests, lists, and the result of code
--   that may throw.
-- Vector: src/processx-vector.c. A vector is its storage and its size. Vector/Forest is about
--   processx_vector_rooted_tree, which lists a process with its descendants; the outer loop has
--   fuel, and one round more than the depth of the tree is enough.
-- Base64: src/base64.c. Arrays are lists, an access outside of one is none, and sizes are
--   computed modulo 2 ^ 32.
-- Connection: src/processx-connection.c and its header. A connection is a record with the fields
--   of processx_connection_t; a buffer is the list of its bytes in use and its allocated size.
--   read(2), write(2), close, accept and iconv are the record Platform, over a state of the outside
--   world; Documented says what their documentation promises. Functions are named after the C
--   functions: connection_read, to_utf8, find_utf8_chars, read_chars, read_bytes, read_lines and
--   so on. The loop over iconv has the number of raw bytes as fuel, which is enough as every
--   further round drops at least one byte.
-- Process: src/unix/processx.c, src/unix/childlist.c and src/unix/sigchld.c. A state is the
--   external pointer of the R object, the signal mask for SIGCHLD, and the outside world; waitpid,
--   kill, pipe, poll and the clock are the record Os. The SIGCHLD handler may run during a poll:
--   poll then says what waitpid told it. In Children, the handler goes through the list of all
--   children, and the handles are a table that the children refer to. A wait with a timeout of n
--   milliseconds takes n / 200 rounds, rounded up, as fuel; in each of them poll is called again after
--   a signal, with fuel for the signals that are still to come.
-- Connection/Poll: processx_c_connection_poll in src/processx-connection.c, its pre-poll functions
--   and processx__interruptible_poll, and src/poll.c. poll(2) is the record Poller. A poll with a
--   timeout of n milliseconds takes n / 200 rounds, rounded up, as fuel.
-- Supervisor: src/supervisor/supervisor.c and src/supervisor/utils.c on Unix, the program that ends
--   the children of R when R is gone. Its system calls are the record System; a state is the world
--   and the list of the calls of kill(2) and extract_pid so far, so that theorems can say what was
--   done to which process. kill_children has 25 rounds of 0.2 seconds as fuel, the reading of the
--   input has fuel for the bytes that are left.
-- Process/Child: processx__child_init in src/unix/processx.c, as far as it arranges the file
--   descriptors of the new process. Its system calls are the record FdOs; Documented gives the table
--   of descriptors that they work on. Pipes is the loop of processx_exec that makes the pipes for it,
--   with processx__make_socketpair as the record Sockets. The last loop has fuel up to the last
--   descriptor there can be.
-- Process/Exec: processx_exec in src/unix/processx.c as the parent runs it, with
--   processx__pty_main_open. Its other system calls are the record ExecOs, and ExecLaws says which
--   descriptors they open. An Account compares the table of descriptors with the one before, and
--   Frame is about what is closed.
-- Process/Socketpair: processx__make_socketpair of src/unix/processx.c on Linux, which fills the
--   record Sockets.
-- Client: src/client.c on Unix: processx_disable_inheritance, processx_write, processx_set_std and its
--   callers. The loop over the descriptors has fuel for all that can be open.
-- Windows/Env: processx__make_program_env, env_strncmp and processx__add_tree_id_env of
--   src/win/processx.c. What they take from Windows and qsort are the record Api; Merge is what the
--   block is to hold.
-- Windows/Stdio: the buffer of inherited handles, of src/win/processx-stdio.h and src/win/stdio.c, as
--   bytes: its test, the loops over its handles, and its layout.
-- CreateTime: processx__read_file and processx__create_time_since_boot of src/create-time.c. The file
--   is the record Reader, sscanf is a parameter; the loop has fuel for the bytes of the file.
-- Windows/Search: processx__search_path in src/win/processx.c. The loop over the path has the length
--   of the path as fuel.
-- Windows/Args: processx__quote_cmd_arg and processx__make_program_args of src/win/processx.c, which
--   make a command line from the arguments; Spec is how a Windows program splits it again.
--
-- mkCharLenCE of R, which refuses a zero byte, is a test for one. The loop of read_until_newline has
-- fuel too; that some fuel is enough is not proved, as the source may give data without end.
--
-- Not modelled: the settings of a terminal, FIFOs, pipe pairs and socket addresses, the options and
-- the set-up of the supervisor, the arithmetic with the time at which a process was created, the
-- handler for SIGTERM in the client library, what the Windows build does but for the command line, the
-- search path, the environment and the reading of the buffer of handles, and the R code. Running
-- out of memory is modelled only for the list of children.
pub mod Base
pub mod Vector
pub mod CreateTime
pub mod Client
pub mod Base64
pub mod Connection
pub mod Process
pub mod Windows
pub mod Supervisor
