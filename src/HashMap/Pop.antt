-- ===== src/HashMap/Pop.antt =====
-- src/hash_map.c: how an address leaves the free space map.
use my_jql.Prelude.{
  ℕ, zero, suc, ◌+◌, ◌-◌, ◌*◌, ◌/◌, ℤ, pos, minus_one, ◌=ℤ◌, Option, none, some, ◌==◌, leb, ltb,
  if◌then◌else◌, update,
}
use my_jql.FileIo.{page_size}
use my_jql.Exec.{Exec, pure, undefined, ◌>>=◌, ◌>>◌}
use my_jql.Pages.{Pages, modify}
use my_jql.HashMap.{
  Words, hash_map_dir_block_size, free_block_head, n_directory_blocks, next, n_items, table, nat,
  dir_addr, dir_slot,
}

-- The loop over the items of a block: the last index that holds `addr`.
unfoldable pub find_item : Words → ℤ → (rounds i : ℕ) → Option ℕ → Option ℕ
find_item block addr zero i target = target
find_item block addr (suc rounds) i target =
    find_item block addr rounds (i + 1) (if block (table i) =ℤ addr then some i else target)

-- `for (i = target + 1; i < n_items; i++) table[i - 1] = table[i];`
unfoldable pub shift_items : Words → (rounds i : ℕ) → Words
shift_items block zero i = block
shift_items block (suc rounds) i =
    shift_items (update block (table (i - 1)) (block (table i))) rounds (i + 1)

-- A block of `count` items, `count > 1`, without the item at `target`.
unfoldable pub drop_item : Words → (count target : ℕ) → Words
unfolding shift_items
drop_item block count target =
    let shifted = shift_items block (count - (target + 1)) (target + 1) in
    update (update shifted n_items (pos (count - 1))) (table (count - 1)) (pos 0)

-- The numbers of the slots of the directory, over all its blocks.
abbrev pub slot_number : (addr counter : ℕ) → ℕ
slot_number addr counter = (addr / page_size - 1) * hash_map_dir_block_size + counter

module _ {S : Type 0} (pool : Pages S Words) where
  open pool use {get_page, load, release}

  -- A block that held its last item: it joins the free list, and the word at `from_addr` and
  -- `from_word`, which led to it, leads to its successor.
  unfoldable pub free_block : (from_addr : ℤ) (from_word : ℕ) → ℤ → Exec S (Unit {0})
  free_block from_addr from_word cnt_addr = do
    get_page from_addr
    block ← load cnt_addr
    modify pool from_addr (λ words. update words from_word (block next))
    get_page (pos 0)
    ctrl ← load (pos 0)
    modify pool cnt_addr (λ words.
        update (update (update words n_items (pos 0)) (table 0) (pos 0)) next
          (ctrl free_block_head))
    modify pool (pos 0) (λ words. update words free_block_head cnt_addr)
    release from_addr
    release cnt_addr
    release (pos 0)

  unfoldable pub pop_found : ℕ → (pre_addr cnt_addr : ℤ) (target : ℕ) → Exec S (Unit {0})
  pop_found size pre_addr cnt_addr target = do
    block ← load cnt_addr
    if ltb 1 (nat (block n_items))
        then (do
          modify pool cnt_addr (λ words. drop_item words (nat (block n_items)) target)
          release cnt_addr)
        else if pre_addr =ℤ cnt_addr
        then free_block (pos (dir_addr size)) (dir_slot size) cnt_addr
        else free_block pre_addr next cnt_addr

  -- The walk along the chain of a bucket; the fuel bounds the blocks that it visits.
  unfoldable pub pop_walk : (fuel size : ℕ) (addr pre_addr cnt_addr : ℤ) → Exec S (Unit {0})
  pop_walk zero size addr pre_addr cnt_addr = undefined
  pop_walk (suc fuel) size addr pre_addr cnt_addr = do
    get_page cnt_addr
    block ← load cnt_addr
    elim (find_item block addr (nat (block n_items)) 0 none) [
      | some target ↦ pop_found size pre_addr cnt_addr target
      | none ↦ (do release cnt_addr; pop_walk fuel size addr cnt_addr (block next))
    ]

  unfoldable pub hash_table_pop : (fuel size : ℕ) → ℤ → Exec S (Unit {0})
  hash_table_pop fuel size addr = do
    get_page (pos (dir_addr size))
    dir ← load (pos (dir_addr size))
    release (pos (dir_addr size))
    pop_walk fuel size addr (dir (dir_slot size)) (dir (dir_slot size))

  -- The search for a slot that is not empty, up to slot `blocks * 16`, which is none. The page of
  -- the slot that it stops at is still held, unless the search ran to its end.
  unfoldable pub scan : (fuel blocks addr counter : ℕ) → Exec S (ℕ × ℕ)
  scan zero blocks addr counter = undefined
  scan (suc fuel) blocks addr counter = do
    dir ← load (pos addr)
    if dir counter =ℤ minus_one
        then (if leb (blocks * hash_map_dir_block_size) (slot_number addr counter)
            then (do release (pos addr); pure (addr, counter))
            else (do
              release (pos addr)
              let addr' = if counter + 1 == hash_map_dir_block_size then addr + page_size else addr
              let counter' = if counter + 1 == hash_map_dir_block_size then 0 else counter + 1
              get_page (pos addr')
              scan fuel blocks addr' counter'))
        else pure (addr, counter)

  unfoldable pub pop_first : (fuel addr counter : ℕ) → Exec S ℤ
  pop_first fuel addr counter = do
    dir ← load (pos addr)
    let map_block_addr = dir counter
    get_page map_block_addr
    map_block ← load map_block_addr
    release (pos addr)
    release map_block_addr
    hash_table_pop fuel (slot_number addr counter) (map_block (table 0))
    pure (map_block (table 0))

  unfoldable pub hash_table_pop_lower_bound : (fuel size : ℕ) → Exec S ℤ
  hash_table_pop_lower_bound fuel size = do
    get_page (pos 0)
    ctrl ← load (pos 0)
    let blocks = nat (ctrl n_directory_blocks)
    release (pos 0)
    get_page (pos (dir_addr size))
    (addr, counter) ← scan fuel blocks (dir_addr size) (dir_slot size)
    if slot_number addr counter == blocks * hash_map_dir_block_size
        then (do release (pos addr); pure minus_one)
        else pop_first fuel addr counter
