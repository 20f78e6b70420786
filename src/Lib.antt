-- ===== src/Lib.antt =====
-- MyJQL, a key-value store in C: files of pages behind a buffer pool, slotted pages, tables with a
-- map of free space, strings in chunks, a B+ tree of records, and a server.
--
-- How the parts stand on each other. src/file_io.c reads and writes pages of 128 bytes;
-- src/buffer_pool.c keeps eight of them in frames and hands out pointers to them; src/block.c lays
-- items out in a page; src/hash_map.c keeps, for each amount of free space, the pages that have
-- it; src/table.c stores items in pages that src/hash_map.c finds; src/str.c stores strings as
-- linked chunks, each an item of a table.
--
-- Which file models what.
-- * FileIo models src/file_io.c and include/file_io.h. A stream is a record: the pages of its
--   file, its size, its position, and whether accesses succeed.
-- * BufferPool models src/buffer_pool.c. The four arrays of the pool are functions of the frame's
--   index, a pointer to a page is such an index, and a write through it is `write_frame`. The
--   children hold the proofs: Find (the search and the choice of a frame), Valid (the invariant
--   and the view that clients have), WriteBack, Install, GetPage, Release, Close and Init.
-- * Block models src/block.c and include/block.h down to the bytes of a page. Block/Slots reads a
--   page as a list of optional items, which Insert, NewItem, Relocate, CloseGap and DeleteItem
--   refer to.
-- * Memory models the accesses to bytes and words that src/block.c makes.
-- * Exec is the state with undefined behaviour that the modules below run in, and Pages the
--   interface of the buffer pool that they use: `pool_pages` is the buffer pool itself,
--   `flat_pages` a file that is all in memory. Pages/Client says what a client may do, Pages/Held
--   counts what it holds, and Pages/Stands, Pages/Refine and Pages/Session compare the two.
--   Pages/Laws says what the modules above may rely on, and Pages/Filled that both kinds of pages
--   provide it, from their opening on (Pages/Opened).
-- * HashMap and HashMap/Pop model src/hash_map.c; a page is 16 words of 64 bits. HashMap/Items is
--   about the items of a block.
-- * Table models src/table.c; `Items` is the interface that src/str.c uses. Table/Read and
--   Table/Pool are about reading over a file in memory and over the buffer pool; Pages/Part puts
--   such a file into a larger state, and Table/Sample is a small table that the tests share.
-- * Str models src/str.c; Str/Codec is about the bytes of a chunk, Str/Laws says what the table
--   does that strings are read from (`HasItems`), Str/Load is about reading strings, and
--   Str/Compare models their comparison.
-- * Tree models the nodes of src/b_tree.c, Tree/Search, Tree/Insert, Tree/Remove and Tree/Delete
--   its functions, with the comparison of keys and the handlers of inner keys as parameters.
--   Tree/Scan, Tree/Shape and Tree/Find are about the search in a whole tree, over any pages that
--   follow the laws. Tree/Rows reads a node as the lists of its rows and children; Tree/Split,
--   Tree/Share and Tree/Order hold the proofs. What the C code writes twice, for a root and for
--   another node, is one definition where the two texts agree.
-- * Myjql models src/myjql.c: the comparison of rows and keys, and get, set and del over an index
--   (`Index`) and two tables. Myjql/Handlers has the handlers for the keys of inner nodes and the
--   index that src/b_tree.c makes; Myjql/Compare is about the comparison of a key, and Myjql/Rows
--   and Myjql/Get about the comparisons of rows and `myjql_get` over the two tables. Values of
--   type `char` are bytes that are compared as signed numbers.
-- * Server models the thread of main/myjqlserver.c that serves one client, and Server/Thread its
--   requests. What `recv`, `send` and `shutdown` do is a script in the state (`World`), which also
--   says whether the client closes its side at the end; each `malloc` gives a buffer with contents
--   of its own; the store is an interface (`Engine`), since the lock makes each call of it one
--   step. Server/Effect and Server/Session are about any client; Server/Protocol writes down the
--   requests and answers of the comments in InstanceThread, Server/Wire, Server/Given and
--   Server/Answer are about a client that keeps to them and whose fields arrive whole, and
--   Server/Dropped is about a client that closes its connection.
--
-- Machine integers. Counters of 64 bits wrap (`inc64`, `dec64`), as do the 16-bit fields of a
-- block (`add16`, `sub16`) and the number of chunks of a string (`short_rounds`). Addresses are
-- integers, of which -1 is written `minus_one`; a `long` has 64 bits, as on Linux, so the cast of
-- an address to `long` in src/file_io.c changes nothing. Sizes and indices that the callers keep
-- small are natural numbers.
--
-- Undefined behaviour is `none`: a pointer to a page that is in no frame, the loop of `get_page`
-- when every frame is held, the end of `get_page` without a return, a string of no chars.
--
-- Fuel. `pop_walk`, `scan`, `delete_string`, `chunk_list` and the walks down the tree follow
-- chains on the disk; their fuel bounds the pages or chunks that they visit, and running out of it
-- is `none`. `instance_thread` has fuel for its rounds: the requests of a client and one more are
-- enough for a client that exits, and what is said of any client holds for each number of rounds.
-- `compare_records` has fuel for the chars that it compares: more than the first string has are
-- enough.
--
-- Not modelled: the C library's streams beyond the record above, the close and init functions that
-- only call those of the parts below, the accept loop and the end of the server (main and
-- exit_nicely of main/myjqlserver.c), the messages that it prints, the client library and the
-- shell (driver/, main/myjqlshell.cpp), the tests and the build.
pub mod Prelude
pub mod Memory
pub mod FileIo
pub mod BufferPool
pub mod Block
pub mod Exec
pub mod Pages
pub mod HashMap
pub mod Table
pub mod Str
pub mod Tree
pub mod Myjql
pub mod Server
