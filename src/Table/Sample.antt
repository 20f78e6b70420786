-- ===== src/Table/Sample.antt =====
-- A small table of src/table.c that holds a string of 22 chars in two chunks.
use my_jql.Prelude.{ℕ, ◌^◌, ◌<◌, ◌≡◌, refl, pos, some, List, [], ◌∷◌, replicate, arith}
use my_jql.Memory.{read32, write8, write32, memcpy, bytes_at}
use my_jql.Block.{
  Block, init_block, new_item, first_available, append_item, fill_item, get_item_id_availability,
  get_item_id_offset, get_item_id_size, compose_item_id,
}
use my_jql.Block.Valid.{slot}
use my_jql.Block.Slots.{slots}
use my_jql.Block.GetItem.{slot_at}
use my_jql.HashMap.{Words}
use my_jql.Pages.{Pages, Flat, flat_pages}
use my_jql.Pages.Part.{part_pages}
use my_jql.Table.{Rid, Items, table_items}
use my_jql.Table.Read.{IsItem, data_pool, table_items-HasItems}
use my_jql.Str.{encode_rid, to_bytes, encode_chunk, no_rid}
use my_jql.Str.Laws.{HasItems}

-- The two files of a table.
pub record TableFiles : Type 0 where
  pub items : Flat Block
  pub fsm : Flat Words

abbrev pub zero_block : Block
zero_block = record { n_items = 0; head_ptr = 0; tail_ptr = 0; bytes = λ _. 0 }

abbrev pub put_items : TableFiles → Flat Block → TableFiles
put_items s t = record s { items = t }

abbrev pub fsm_pool : Pages TableFiles Words
fsm_pool = part_pages (λ s. s.fsm) (λ s t. record s { fsm = t }) (flat_pages (λ _. pos 0))

abbrev pub table : Items TableFiles
table =
    table_items (data_pool zero_block (λ s. s.items) put_items (λ s. refl) fsm_pool 9) fsm_pool 9

abbrev pub table-HasItems : HasItems table
table-HasItems = table_items-HasItems zero_block (λ s. s.items) put_items (λ s. refl) fsm_pool 9

abbrev pub rid_zero : Rid
rid_zero = record { block_addr = pos 0; idx = pos 0 }

abbrev pub rid_one : Rid
rid_one = record { block_addr = pos 0; idx = pos 1 }

-- The second chunk, which is inserted first, and the chunk that leads to it.
abbrev pub tail : List ℕ
tail = encode_chunk (record { rid = no_rid; size = 2; chars = 8 ∷ 9 ∷ [] })

abbrev pub front : List ℕ
front = encode_chunk (record { rid = rid_zero; size = 20; chars = replicate 20 7 })

unfoldable pub block : Block
unfolding new_item first_available append_item fill_item init_block encode_chunk encode_rid to_bytes
block = (new_item (new_item (init_block zero_block) tail 14).0 front 32).0

abbrev pub files : TableFiles
files = record {
  items = record { page = λ _. block; length = 128 };
  fsm = record { page = λ _ _. pos 0; length = 0 };
}

pub tail-slot : slot_at (slots block) (pos 0) ≡ some tail
unfolding block slot get_item_id_availability get_item_id_offset get_item_id_size compose_item_id
    read32 write32 memcpy bytes_at encode_chunk encode_rid to_bytes
tail-slot = refl

pub front-slot : slot_at (slots block) (pos 1) ≡ some front
unfolding block slot get_item_id_availability get_item_id_offset get_item_id_size compose_item_id
    read32 write32 memcpy bytes_at encode_chunk encode_rid to_bytes
front-slot = refl

pub few_slots : block.n_items < 2 ^ 15
unfolding block get_item_id_availability read32 memcpy write8 write32 compose_item_id
few_slots = omega arith

pub tail-IsItem : IsItem files.items rid_zero tail
tail-IsItem = (0, refl, omega arith, few_slots, tail-slot)

pub front-IsItem : IsItem files.items rid_one front
front-IsItem = (0, refl, omega arith, few_slots, front-slot)
