-- ===== src/Lib.antt =====
-- The course projects in C: a threaded database server, a shell's job list and parsing, a maze
-- generator and solver, bit puzzles, the evaluation of polynomials, replacements for string
-- functions of the C library, and a memory allocator.
--
-- Each part has a module of its own over Common. The shell's parsing reads strings as Strings does.
--
-- Common: what the parts share. Lists measured by native numbers (Common.Lists), C strings as lists
--   of bytes with strcmp and isspace (Common.Bytes), integers (Common.Int), Boolean tests on numbers.
-- Database: database/db.c and database/db.h. A `node_t *` is a tree (Tree); a pointer into the tree
--   is the frames above it and the node. `search`, with the locking events it makes, is in Search;
--   node_constructor, db_query, db_add and db_remove in Update; the printing and the freeing in Print;
--   interpret_command in Command. Sorted has the reference: a sorted list of entries with lookup,
--   insertion and erasure. Finds and AtPlace say where `search` ends, Valid has the invariant, Correct
--   and Remove the refinement, Overflow an input of db_remove that writes past a buffer, Locks and
--   Releases the locking discipline, Words what is read of a command,
--   Executes and CommandSafe what each command does.
-- Strings: stringsperf/strings/strings.c. Span, Compare and Find say what the functions return.
-- Jobs: shell_2/jobs.c. The list is its elements in order, each with its address. Valid has the
--   invariant, Remove the removals, Lookup the search for an added job, Apart the loops at a job, and
--   Iterate a round of get_next_pid. Reap is shell_2/reap.c, and Reaped a round of reap over the list.
--   Resume has bg and fg of shell_2/executes.c, and Resumed what bg does to the list.
-- Maze: maze/common.c and maze/common.h; Generator is maze/generator.c and Solver maze/solver.c. Grid
--   has the indices, Rooms the changes of the array, Codes the numbers of the rooms, Program and
--   Generate the main functions. Of the generator, Shuffle and Distinct have the order of the
--   directions, Sound what the connections satisfy during the walk, Connect and Place single writes,
--   Walk and Loop the loop over the directions, Spanning the whole walk, and Spanned and Written what
--   is written. Of the solver, Trail, Looped and Search have the depth-first search, Print the path that is
--   printed, and Solved its work from the reading on. Together is about both programs.
-- Bits: data/bits.c and data/tests.c on 32-bit words, compared in Agree.
-- Polynomial: stringsperf/performance/poly.c and poly_naive.c, compared in Exact.
-- Shell: shell_2/parse.c (Parse). Total says that it ends, Symbols what it does not refuse.
-- Allocator: malloc/mm.c (Operations, Resize for mm_realloc, Check for mm_check_heap),
--   malloc/mminline.h (Block) and malloc/memlib.c (Sbrk). A heap is a record: the memory, a word of 64
--   bits at each address, and the variables of the three files. A block is the address of its first
--   tag. Access, Tags and Ring say what single accesses, the tags and the circular list of free blocks
--   do; Insert, Unlink and Pull change that list. Tiles and State have the blocks that fill the heap,
--   Heaps and Extend the invariant of the allocator. Coalesce, Join, JoinNext, Release, Free and Keep
--   are about `mm_free`; BestFit, Rebuild, Cut, Split, Take, Found, Grow and Malloc about `mm_malloc`;
--   Lend is about both, Init about `mm_init`, Passes about `mm_check_heap`, Realloc about `mm_realloc`.
-- Server: database/server.c, the list of clients, the control that stops them and the count of their
--   threads. A client is the address of its client_t. Threads has the threads as a step relation, one
--   section of a mutex at a time, Input the loop of main over what is typed. Chain has the list,
--   Linking what linking and cleaning up do to it, Serving and Kept the invariant while clients are
--   served, Ending how the server ends, and Lost what delete_all misses.
-- Driver: malloc/mdriver.c, the list of payload ranges. Overlap says which payloads are accepted.
--
-- Fuel: `reap` takes one unit for each job and one more, and `parse` gives its loop the length of the
-- line and two more. `dfs` and `drunken_walk` take fuel, where each call visits a room; one unit for
-- each unvisited room is enough for `dfs`. `print_prunned` takes fuel for the rooms of the path.
-- `interpret_command` takes fuel for files that name files; one unit is enough for every command but
-- 'f'. The loops of `mm_malloc` and `mm_free` over the free list take fuel, where one unit for each
-- free block is enough, and `mm_check_heap` takes one for each block and each free block.
-- The loop of `delete_all` takes one for each client.
--
-- Parameters: the bytes of the shell's buffer behind the line, the file system, `atoi`, `waitpid`, the numbers that `fscanf` reads, addition and
-- multiplication of `double`, the success of `malloc`, the addresses that it returns, and `rand`.
--
-- Numbers: counters and indices are natural numbers that do not overflow. Buffers have the sizes that
-- the code asks for. A lock is not waited for: one operation runs at a time, and of the server's
-- threads one section of a mutex. The listener and
-- the thread of the signals are not waited for, so that what they have begun may come late. The sizes
-- in the allocator are machine words that wrap around, and so does the address that `block_next`
-- computes from a size; the other addresses are not so large that they do.
--
-- Not modelled: the sockets and signal masks of the database server, the processes and terminals of the
-- shells, the rest of the drivers, which replay traces, test and time, and the message that `mem_sbrk`
-- prints. Memory is read and written by whole words, since the allocator does so.
mod Common
pub mod Bits
pub mod Database
pub mod Strings
pub mod Jobs
pub mod Maze
pub mod Polynomial
pub mod Shell
pub mod Allocator
pub mod Server
pub mod Driver
