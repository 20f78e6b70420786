-- ===== src/Table/Tests.antt =====
-- The theorem about src/table.c at a table with two items.
use my_jql.Prelude.{◌≡◌, refl, some, pos, true, none, [], arith}
use my_jql.Table.{table_read}
use my_jql.FileIo.{FileInfo, open_file}
use my_jql.Block.{Block}
use my_jql.BufferPool.{BufferPool, init_buffer_pool}
use my_jql.HashMap.{Words}
use my_jql.Pages.{Pages, flat_pages, pool_pages}
use my_jql.Pages.Part.{part_pages}
use my_jql.Pages.Filled.{pool_pages-HasPages}
use my_jql.Pages.Opened.{opened-Shows}
use my_jql.Table.Pool.{table_read-slot_at}
use my_jql.Table.Sample.{zero_block, block, few_slots, front-slot, rid_one, front}

-- The same block is a page of a file on the disk, behind the buffer pool.
abbrev disk : FileInfo Block
disk = record {
  fp = record { content = λ _. block; size = 128; position = 0; working = true };
  length = 128;
}

abbrev pool : BufferPool Block
pool = init_buffer_pool (open_file disk (some disk.fp) none).1 (λ _. zero_block)

abbrev no_fsm : Pages (BufferPool Block) Words
no_fsm =
    part_pages (λ s. record { page = λ n m. pos 0; length = 0 }) (λ s flat. s)
      (flat_pages (λ m. pos 0))

table_read-slot_at_example :
    (pool' : BufferPool Block) × (table_read (pool_pages zero_block) no_fsm rid_one pool
      ≡ some (front, pool'))
    × (pool_pages-HasPages zero_block).Shows (λ _. block) 128 [] 97 pool'
table_read-slot_at_example =
    table_read-slot_at (pool_pages zero_block) no_fsm (pool_pages-HasPages zero_block) (λ _. block)
      128 [] 97 0 rid_one front pool refl (omega arith) (omega arith) few_slots front-slot
      (opened-Shows zero_block disk disk.fp none (λ _. zero_block) 100 refl refl (omega arith))
