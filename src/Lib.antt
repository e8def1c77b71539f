-- ===== src/Lib.antt =====
-- Verification of libbase, a small C library of containers, strings and process helpers.
--
-- A pointer is a number and NULL is 0. Code that changes memory is a command over an explicit state
-- (Memory): it returns a result and the new state, or it ends in a failed `BS_ASSERT`, in a read or
-- a write through a pointer that points to nothing, or short of the rounds its loops were given.
-- A function that loops takes that number of rounds as an argument; the theorems show that one round
-- more than a list has nodes, or a tree is high, is enough.
--
-- * Dequeue models dequeue.h: `push_front`, `push_back` and `pop` are the inline functions
--   bs_dequeue_push_front, bs_dequeue_push_back and bs_dequeue_pop. A node is its `next_ptr`.
--   Dequeue/Chain says what list a queue holds, Push and Pop prove each call, Refine any sequence.
-- * Dllist models dllist.c and dllist.h: each function has the name of its source less the prefix
--   bs_dllist_. Dllist/Seg says what list a `bs_dllist_t` holds; Push, Pop, Find, Remove, Insert
--   and ForEach prove the calls.
-- * Avltree models avltree.c and avltree.h: the record Avltree has a `bs_avltree_t` and one map for
--   each member of `bs_avltree_node_t`; the rotations are in Avltree, the walks in Avltree/Search and
--   bs_avltree_insert, bs_avltree_node_replace in Avltree/Insert. `cmp` is a parameter: what the
--   callback says of a node and a key. `int8_t` and `size_t` wrap around. Avltree/Shape says which
--   tree the memory holds, also around a subtree; Avltree/Balanced says when it is an AVL tree;
--   Rotate, Search and Insert prove the calls. Avltree/Delete models bs_avltree_delete and
--   bs_avltree_node_exchange, Avltree/Life bs_avltree_create, bs_avltree_flush and
--   bs_avltree_destroy, and Avltree/Verify bs_avltree_verify_node; the modules below each prove it.
-- * PtrSet models ptr_set.c and ptr_set.h as a client of Avltree: a call for the tree runs on the tree
--   of the set, compared by `elem_compare` with the elements that the holders have. bs_ptr_set_insert
--   is `insert`, and so on; calloc gives a holder or none. PtrSet/Compare is about the comparison,
--   Elements about the list of the elements, Calls, Inserted and Any about the calls.
-- * PtrVector models ptr_vector.c and ptr_vector.h, PtrStack models ptr_stack.c and ptr_stack.h, each
--   function under its name less its prefix, the log lines left out. `realloc` is a parameter; Block
--   has what the C standard says of it. A block is the list of its cells.
-- * Text has strings and what is used of string.h and ctype.h. Strutil models strutil.c, each function
--   under its name less the prefix bs_ (bs_str_startswith is `startswith`); the state is the buffer
--   that is appended to. `vsnprintf` is a parameter, and `Formats` has what POSIX says of it.
--   Strutil/Append is about appending, Strutil/Convert about numbers.
-- * Arg models arg.c and arg.h, with Arg/Check for check_arg and Arg/Command for bs_arg_parse (`parse`)
--   and bs_arg_cleanup (`cleanup`). Arg/Names and Arg/Match are about the names of arguments
--   and what matches them, Unique about the search, Line and Parse about whole command lines, Cleanup
--   about failures and Range about numbers. The variables are a map from their addresses.
-- * File models the paths of file.c: bs_file_resolve_path, bs_file_join_resolve_path and
--   bs_file_resolve_and_lookup_from_paths (`lookup_from_paths`). getenv, realpath and stat are
--   parameters, and so are PATH_MAX and what the arrays hold at first. File/Buffer models reading and
--   writing of a file, with what the calls of the operating system return as parameters.
-- * Gfxbuf models gfxbuf.h and gfxbuf.c over a memory of pixels that buffers may share; a copied line
--   that overlaps with its source faults. Gfxbuf/Paint is about one line, Lines about the loop, Area about
--   where the pixels are; Clear, Copy and Create are about the calls.
-- * Xpm models gfxbuf_xpm.c: bs_gfxbuf_xpm_create_from_data is `create_from_data`, the others have their
--   names less _bs_gfxbuf_xpm_, and parse_color_into_node is `parse_color`. sscanf is a parameter.
--   Xpm/Line is about a line, Xpm/Rows about the copying.
-- * Tokenizer models _split_next_token of subprocess.c with its table state_transition_table. A string
--   is the list of its characters before the NUL; memory for the token is taken to be there.
-- * Subprocess models _split_command, _is_variable_assignment and _populate_env_var of subprocess.c.
--   `regexec` is a parameter; Subprocess/Split has what regex(3) says of the expression. The loop is
--   given one round more than the line has characters, since each token is read from a character at
--   least; Subprocess/Fuel is about that.
--
-- Not modelled: logging, sockets, threads, clocks, process control and the test harness, which are
-- input and output or calls of the operating system; atomic.h, macros over what the compiler has;
-- vector.h and parts of gfxbuf.c, floating point numbers and Cairo.
pub mod Base
pub mod PtrSet
pub mod Memory
pub mod Text
pub mod Dequeue
pub mod Dllist
pub mod Avltree
pub mod Block
pub mod PtrVector
pub mod PtrStack
pub mod Strutil
pub mod Arg
pub mod Tokenizer
pub mod Subprocess
pub mod Gfxbuf
pub mod Xpm
pub mod File
