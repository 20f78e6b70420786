-- ===== src/HashMap.antt =====
-- src/hash_map.c and include/hash_map.h: the free space map, a static hash table in a file of
-- pages. A page is read as sixteen words of type `off_t`.
pub mod Pop
pub mod Items
mod Tests
use my_jql.Prelude.{
  ℕ, zero, suc, ◌+◌, ◌-◌, ◌*◌, ◌/◌, ◌%◌, ℤ, pos, negsuc, minus_one, ◌=ℤ◌, Option, none, some, ◌==◌,
  leb, ltb, if◌then◌else◌, update,
}
use my_jql.FileIo.{page_size}
use my_jql.Exec.{Exec, pure, undefined, ◌>>=◌, ◌>>◌}
use my_jql.Pages.{Pages, modify}

abbrev pub Words : Type 0
Words = ℕ → ℤ

abbrev pub hash_map_dir_block_size : ℕ
hash_map_dir_block_size = 16

abbrev pub hash_map_block_size : ℕ
hash_map_block_size = 14

-- The fields of the control block, and those of a block of items, by their words.
abbrev pub free_block_head : ℕ
free_block_head = 0

abbrev pub n_directory_blocks : ℕ
n_directory_blocks = 1

abbrev pub max_size : ℕ
max_size = 2

abbrev pub next : ℕ
next = 0

abbrev pub n_items : ℕ
n_items = 1

abbrev pub table : ℕ → ℕ
table i = 2 + i

-- A count or an address that is not negative.
abbrev pub nat : ℤ → ℕ
nat (pos n) = n
nat (negsuc _) = 0

abbrev pub dir_addr : ℕ → ℕ
dir_addr size = (size / hash_map_dir_block_size + 1) * page_size

abbrev pub dir_slot : ℕ → ℕ
dir_slot size = size % hash_map_dir_block_size

module _ {S : Type 0} (pool : Pages S Words) where
  open pool use {get_page, load, release, file_length, set_file_length}

  abbrev set_word : ℤ → ℕ → ℤ → Exec S (Unit {0})
  set_word addr i w = modify pool addr (λ words. update words i w)

  -- The directory is filled with -1, block by block: `rounds` blocks from block `i` on.
  unfoldable pub init_directory : (rounds i : ℕ) → Exec S (Unit {0})
  init_directory zero i = pure tt
  init_directory (suc rounds) i = do
    get_page (pos (i * page_size))
    modify pool (pos (i * page_size)) (λ _ _. minus_one)
    release (pos (i * page_size))
    init_directory rounds (i + 1)

  -- `hash_table_init` behind `init_buffer_pool`.
  unfoldable pub hash_table_init : ℕ → Exec S (Unit {0})
  hash_table_init blocks = do
    length ← file_length
    if length == 0
        then (do
          init_directory blocks 1
          get_page (pos 0)
          set_word (pos 0) free_block_head minus_one
          set_word (pos 0) n_directory_blocks (pos blocks)
          set_word (pos 0) max_size (pos (page_size * (blocks + 1)))
          set_file_length (page_size * (blocks + 1))
          release (pos 0))
        else pure tt

  -- The blocks that the four branches of `hash_table_insert` write.
  unfoldable pub fill_block : ℤ → (next_addr item : ℤ) → Exec S (Unit {0})
  fill_block addr next_addr item = do
    set_word addr next next_addr
    set_word addr n_items (pos 1)
    set_word addr (table 0) item

  -- The bucket is empty, and the free list is not: its first block becomes the bucket.
  unfoldable pub insert_reused : ℕ → ℤ → ℤ → Exec S (Unit {0})
  insert_reused size addr free_addr = do
    get_page free_addr
    set_word (pos (dir_addr size)) (dir_slot size) free_addr
    block ← load free_addr
    set_word (pos 0) free_block_head (block next)
    fill_block free_addr minus_one addr
    release free_addr
    release (pos (dir_addr size))
    release (pos 0)

  -- The bucket and the free list are empty: a block is added at the end of the file.
  unfoldable pub insert_fresh : ℕ → ℤ → ℤ → Exec S (Unit {0})
  insert_fresh size addr free_addr = do
    set_word (pos (dir_addr size)) (dir_slot size) free_addr
    get_page free_addr
    fill_block free_addr minus_one addr
    set_word (pos 0) max_size (pos (nat free_addr + page_size))
    release (pos (dir_addr size))
    release free_addr
    release (pos 0)

  unfoldable pub insert_room : ℕ → ℤ → ℤ → ℕ → Exec S (Unit {0})
  insert_room size addr cnt_addr count = do
    set_word cnt_addr (table count) addr
    set_word cnt_addr n_items (pos (count + 1))
    release (pos (dir_addr size))
    release cnt_addr

  -- The first block of the bucket is full: a block before it is added at the end of the file.
  unfoldable pub insert_before : ℕ → ℤ → ℤ → Exec S (Unit {0})
  insert_before size addr cnt_addr = do
    get_page (pos 0)
    ctrl ← load (pos 0)
    let free_addr = ctrl max_size
    get_page free_addr
    fill_block free_addr cnt_addr addr
    set_word (pos (dir_addr size)) (dir_slot size) free_addr
    set_word (pos 0) max_size (pos (nat free_addr + page_size))
    release cnt_addr
    release free_addr
    release (pos 0)
    release (pos (dir_addr size))

  unfoldable pub insert_empty : ℕ → ℤ → Exec S (Unit {0})
  insert_empty size addr = do
    get_page (pos 0)
    ctrl ← load (pos 0)
    if ctrl free_block_head =ℤ minus_one
        then insert_fresh size addr (ctrl max_size)
        else insert_reused size addr (ctrl free_block_head)

  unfoldable pub insert_chain : ℕ → ℤ → ℤ → Exec S (Unit {0})
  insert_chain size addr cnt_addr = do
    get_page cnt_addr
    block ← load cnt_addr
    if nat (block n_items) == hash_map_block_size
        then insert_before size addr cnt_addr
        else insert_room size addr cnt_addr (nat (block n_items))

  unfoldable pub hash_table_insert : ℕ → ℤ → Exec S (Unit {0})
  hash_table_insert size addr = do
    get_page (pos (dir_addr size))
    dir ← load (pos (dir_addr size))
    if dir (dir_slot size) =ℤ minus_one
        then insert_empty size addr
        else insert_chain size addr (dir (dir_slot size))
