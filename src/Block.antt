-- ===== src/Block.antt =====
-- src/block.c and include/block.h: a page with a header, an array of item ids and items.
-- A `short` is its 16-bit pattern; the sums that C computes in `int` and stores in a `short`
-- wrap here as they are stored.
mod Ids
pub mod Valid
pub mod Slots
mod Tests
pub mod Insert
pub mod NewItem
pub mod GetItem
pub mod Relocate
pub mod CloseGap
pub mod DeleteItem
use my_jql.Prelude.{
  ℕ, zero, suc, ◌+◌, ◌-◌, ◌*◌, ◌/◌, ◌%◌, ◌^◌, ℤ, pos, negsuc, List, Option, none, some, ◌==◌, ltb,
  leb, if◌then◌else◌, ◌&&◌, ◌||◌, take,
}
use my_jql.FileIo.{page_size}
use my_jql.Memory.{Memory, read32, write32, memcpy, slide}

abbrev pub add16 : ℕ → ℕ → ℕ
add16 a b = (a + b) % 2 ^ 16

abbrev pub sub16 : ℕ → ℕ → ℕ
sub16 a b = (a + 2 ^ 16 - b) % 2 ^ 16

-- The offset of `data` in a `Block`: three `short`s stand before it.
abbrev pub data_offset : ℕ
data_offset = 6

-- `bytes` is the page by offset from its start; the header's fields stand beside it.
pub record Block : Type 0 where
  pub n_items : ℕ
  pub head_ptr : ℕ
  pub tail_ptr : ℕ
  pub bytes : Memory

unfoldable pub get_item_id_availability : ℕ → ℕ
get_item_id_availability item_id = item_id / 2 ^ 30 % 2

unfoldable pub get_item_id_offset : ℕ → ℕ
get_item_id_offset item_id = item_id / 2 ^ 15 % 2 ^ 15

unfoldable pub get_item_id_size : ℕ → ℕ
get_item_id_size item_id = item_id % 2 ^ 15

unfoldable pub compose_item_id : ℕ → ℕ → ℕ → ℕ
compose_item_id availability offset size =
    availability % 2 * 2 ^ 30 + offset % 2 ^ 15 * 2 ^ 15 + size % 2 ^ 15

abbrev pub item_id_at : ℕ → ℕ
item_id_at idx = data_offset + 4 * idx

abbrev pub get_item_id : Block → ℕ → ℕ
get_item_id block idx = read32 block.bytes (item_id_at idx)

-- The bytes of a block in which `get_item_id(block, idx) = item_id` has been executed.
abbrev pub set_item_id : Memory → ℕ → ℕ → Memory
set_item_id bytes idx item_id = write32 bytes (item_id_at idx) item_id

unfoldable pub init_block : Block → Block
init_block block = record block { n_items = 0; head_ptr = data_offset; tail_ptr = page_size }

-- The offset that the returned pointer has in the page; `none` is `NULL`.
-- A `short` whose pattern is not below `2 ^ 15` is negative, and no index is below it.
unfoldable pub get_item : Block → ℤ → Option ℕ
unfolding get_item_id_availability get_item_id_offset
get_item block (negsuc _) = none
get_item block (pos idx) =
    if leb (2 ^ 15) block.n_items || leb block.n_items idx
    then none
    else if get_item_id_availability (get_item_id block idx) == 0
    then some (get_item_id_offset (get_item_id block idx))
    else none

-- The search of `new_item`: the first available id among the `rounds` from `i` on.
unfoldable pub first_available : Block → (rounds i : ℕ) → Option ℕ
first_available block zero i = none
first_available block (suc rounds) i =
    let rest = first_available block rounds (i + 1) in
    if get_item_id_availability (get_item_id block i) == 1 then some i else rest

-- Both branches of `new_item` write the id, copy the item below `tail_ptr` and move `tail_ptr`.
unfoldable pub fill_item : Block → ℕ → List ℕ → ℕ → Block
fill_item block idx item item_size = record block {
  bytes =
      memcpy
        (set_item_id block.bytes idx (compose_item_id 0 (sub16 block.tail_ptr item_size) item_size))
        (sub16 block.tail_ptr item_size) (take item_size item);
  tail_ptr = sub16 block.tail_ptr item_size;
}

unfoldable pub append_item : Block → List ℕ → ℕ → Block
append_item block item item_size =
    let filled = fill_item block block.n_items item item_size in
    record filled { n_items = add16 block.n_items 1; head_ptr = add16 block.head_ptr 4 }

unfoldable pub new_item : Block → List ℕ → ℕ → Block × ℕ
new_item block item item_size = elim (first_available block block.n_items 0) [
  | some i ↦ (fill_item block i item item_size, i)
  | none ↦ (append_item block item item_size, block.n_items)
]

-- One round of the second loop of `delete_item`: an item below the hole has moved up by its size.
unfoldable pub relocate : Memory → (item_offset item_size i : ℕ) → Memory
relocate bytes item_offset item_size i =
    let item_id = read32 bytes (item_id_at i) in
    let tmp_offset = get_item_id_offset item_id in
    if (get_item_id_availability item_id == 0) && ltb tmp_offset item_offset
    then set_item_id bytes i (compose_item_id 0 (tmp_offset + item_size) (get_item_id_size item_id))
    else bytes

unfoldable pub relocate_all : Memory → (item_offset item_size rounds i : ℕ) → Memory
relocate_all bytes item_offset item_size zero i = bytes
relocate_all bytes item_offset item_size (suc rounds) i =
    relocate_all (relocate bytes item_offset item_size i) item_offset item_size rounds (i + 1)

-- The end of `delete_item`: the last id is given back if it is available.
unfoldable pub drop_last : Block → Block
drop_last block =
    if get_item_id_availability (get_item_id block (block.n_items - 1)) == 1
    then record block { head_ptr = sub16 block.head_ptr 4; n_items = sub16 block.n_items 1 }
    else block

-- `delete_item` before its last step: the id becomes available, the bytes below the item slide up
-- over it, and the ids of the items that moved follow.
unfoldable pub close_gap : Block → ℕ → Block
close_gap block idx =
    let item_id = get_item_id block idx in
    let item_size = get_item_id_size item_id in
    let item_offset = get_item_id_offset item_id in
    let tail = add16 block.tail_ptr item_size in
    let freed = set_item_id block.bytes idx (compose_item_id 1 item_offset item_size) in
    let moved = slide freed (sub16 tail item_size) tail (item_offset + item_size - tail) in
    record block {
      bytes = relocate_all moved item_offset item_size block.n_items 0;
      tail_ptr = tail;
    }

unfoldable pub delete_item : Block → ℕ → Block
delete_item block idx = drop_last (close_gap block idx)
