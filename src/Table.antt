-- ===== src/Table.antt =====
-- src/table.c and include/table.h: items in blocks, found through record ids.
pub mod Read
pub mod Pool
pub mod Sample
mod Tests
use my_jql.Prelude.{
  ℕ, ◌+◌, ◌-◌, ◌/◌, ℤ, pos, minus_one, ◌=ℤ◌, Option, none, some, if◌then◌else◌, List,
}
use my_jql.FileIo.{page_size}
use my_jql.Exec.{Exec, pure, undefined, ◌>>=◌, ◌>>◌}
use my_jql.Memory.{bytes_at}
use my_jql.Block.{
  Block, init_block, get_item, new_item, delete_item, get_item_id, get_item_id_size, sub16,
}
use my_jql.HashMap.{Words, hash_table_insert, nat}
use my_jql.HashMap.Pop.{hash_table_pop, hash_table_pop_lower_bound}
use my_jql.Pages.{Pages, modify}

-- `RID`: the address of a block and the index of an item in it, -1 for none.
pub record Rid : Type 0 where
  pub block_addr : ℤ
  pub idx : ℤ

-- The free space that the free space map is told: `tail_ptr - head_ptr`, as a `short`.
abbrev pub free_space : Block → ℕ
free_space block = sub16 block.tail_ptr block.head_ptr

module _ {S : Type 0} (data_pool : Pages S Block) (fsm_pool : Pages S Words) where
  open data_pool use {get_page, load, store, release, file_length}

  unfoldable pub table_get_total_blocks : Exec S ℕ
  table_get_total_blocks = do length ← file_length; pure (length / page_size)

  unfoldable pub table_block_get_total_items : ℤ → Exec S ℕ
  table_block_get_total_items block_addr = do
    get_page block_addr
    block ← load block_addr
    release block_addr
    pure block.n_items

  -- What `memcpy` reads through the pointer that `get_item` returned; `NULL` is not readable.
  abbrev pub read_item : Block → Option ℕ → ℕ → Exec S (List ℕ)
  read_item block none size = undefined
  read_item block (some offset) size = pure (bytes_at block.bytes offset size)

  -- The bytes that are copied to `dest`.
  unfoldable pub table_read : Rid → Exec S (List ℕ)
  table_read rid = do
    get_page rid.block_addr
    block ← load rid.block_addr
    bytes ←
        read_item block (get_item block rid.idx)
          (get_item_id_size (get_item_id block (nat rid.idx)))
    release rid.block_addr
    pure bytes

  -- The end of both branches of `table_insert`: the item goes into the block that is held through
  -- `ptr`, and the free space map is told what room is left at `final_addr`.
  unfoldable pub place : List ℕ → ℕ → (ptr final_addr : ℤ) → Exec S Rid
  place src size ptr final_addr = do
    block ← load ptr
    let (block', idx) = new_item block src size
    store ptr block'
    hash_table_insert fsm_pool (free_space block') final_addr
    release final_addr
    pure (record { block_addr = final_addr; idx = pos idx })

  unfoldable pub insert_new : List ℕ → ℕ → Exec S Rid
  insert_new src size = do
    length ← file_length
    get_page (pos length)
    modify data_pool (pos length) init_block
    length' ← file_length
    place src size (pos length) (pos (length' - page_size))

  unfoldable pub insert_at : List ℕ → ℕ → ℤ → Exec S Rid
  insert_at src size addr = do get_page addr; place src size addr addr

  unfoldable pub table_insert : (fuel : ℕ) → List ℕ → ℕ → Exec S Rid
  table_insert fuel src size = do
    addr ← hash_table_pop_lower_bound fsm_pool fuel (size + 4)
    if addr =ℤ minus_one then insert_new src size else insert_at src size addr

  unfoldable pub table_delete : (fuel : ℕ) → Rid → Exec S (Unit {0})
  table_delete fuel rid = do
    get_page rid.block_addr
    block ← load rid.block_addr
    hash_table_pop fsm_pool fuel (free_space block) rid.block_addr
    let block' = delete_item block (nat rid.idx)
    store rid.block_addr block'
    hash_table_insert fsm_pool (free_space block') rid.block_addr
    release rid.block_addr

-- What the modules above a table do with it: `S` is all that they can reach.
pub record Items (S : Type 0) : Type 0 where
  pub read : Rid → Exec S (List ℕ)
  pub insert : List ℕ → ℕ → Exec S Rid
  pub delete : Rid → Exec S (Unit {0})

unfoldable pub table_items : {S : Type 0} → Pages S Block → Pages S Words → (fuel : ℕ) → Items S
table_items data_pool fsm_pool fuel = record {
  read = table_read data_pool fsm_pool;
  insert = table_insert data_pool fsm_pool fuel;
  delete = table_delete data_pool fsm_pool fuel;
}
