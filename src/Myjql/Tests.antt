-- ===== src/Myjql/Tests.antt =====
-- The theorems about src/myjql.c at a table with two stored strings and one with two records.
use my_jql.Prelude.{ℕ, ◌<◌, ◌^◌, ◌≡◌, refl, pos, some, List, [], ◌∷◌, ◌++◌, replicate, arith}
use my_jql.Exec.{◌>>=◌}
use my_jql.Str.{read_string, encode_rid, to_bytes}
use my_jql.Str.Laws.{Preserves, Chain, joined}
use my_jql.Str.Compare.{compare_chars}
use my_jql.Table.Read.{table_items-HasItems, still-HasItems}
use my_jql.Table.Sample.{
  TableFiles, table, table-HasItems, zero_block, rid_zero, rid_one, files, tail-IsItem,
  front-IsItem,
}
use my_jql.Myjql.{Index, myjql_get, Record, encode_record, compare_key, row_row_cmp, ptr_row_cmp}
use my_jql.Myjql.Get.{IsValue, myjql_get-IsValue}
use my_jql.Myjql.Rows.{HasKey, tbl_rec, tbl_str, row_row_cmp-chars, ptr_row_cmp-chars}
use my_jql.Memory.{read32, write8, write32, memcpy, bytes_at}
use my_jql.Block.{
  Block, init_block, new_item, first_available, append_item, fill_item, get_item_id_availability,
  get_item_id_offset, get_item_id_size, compose_item_id,
}
use my_jql.Block.Valid.{slot}
use my_jql.Block.Slots.{slots}
use my_jql.Block.GetItem.{slot_at}
use my_jql.HashMap.{Words}
use my_jql.Pages.{Pages, Flat, flat_pages}
use my_jql.Pages.Part.{part_pages}
use my_jql.Table.{Rid, Items}
use my_jql.Myjql.Compare.{compare_key-chars}

files-Chain : Chain table-HasItems files rid_zero ((8 ∷ 9 ∷ []) ∷ [])
unfolding table_items-HasItems
files-Chain = (tail-IsItem, omega arith, omega arith)

compare_key-chars_example :
    (s' : TableFiles) × ((read_string table rid_zero >>= compare_key table (8 ∷ [])) files
      ≡ some (compare_chars (8 ∷ []) (joined table-HasItems ((8 ∷ 9 ∷ []) ∷ [])), s'))
    × Preserves table-HasItems files s'
compare_key-chars_example =
    compare_key-chars table-HasItems files rid_zero ((8 ∷ 9 ∷ []) ∷ []) (8 ∷ []) files-Chain

-- The files of both tables.
record Db : Type 0 where
  records : Flat Block
  strings : Flat Block
  fsm : Flat Words

abbrev fsm_pool : Pages Db Words
fsm_pool = part_pages (λ s. s.fsm) (λ s t. record s { fsm = t }) (flat_pages (λ _. pos 0))

abbrev put_records : Db → Flat Block → Db
put_records s t = record s { records = t }

abbrev put_strings : Db → Flat Block → Db
put_strings s t = record s { strings = t }

-- Record 0 has the key 8, 9 and record 1 the long key.
abbrev record_zero : Record
record_zero = record { key = rid_zero; value = rid_one }

abbrev record_one : Record
record_one = record { key = rid_one; value = rid_zero }

unfoldable rec_block : Block
unfolding new_item first_available append_item fill_item init_block encode_record encode_rid
    to_bytes
rec_block =
    (new_item (new_item (init_block zero_block) (encode_record record_zero) 20).0
      (encode_record record_one) 20).0

abbrev db : Db
db = record {
  records = record { page = λ _. rec_block; length = 128 };
  strings = files.items;
  fsm = files.fsm;
}

slot_zero : slot_at (slots rec_block) (pos 0) ≡ some (encode_record record_zero)
unfolding rec_block slot get_item_id_availability get_item_id_offset get_item_id_size
    compose_item_id read32 write32 memcpy bytes_at encode_record encode_rid to_bytes
slot_zero = refl

slot_one : slot_at (slots rec_block) (pos 1) ≡ some (encode_record record_one)
unfolding rec_block slot get_item_id_availability get_item_id_offset get_item_id_size
    compose_item_id read32 write32 memcpy bytes_at encode_record encode_rid to_bytes
slot_one = refl

few_records : rec_block.n_items < 2 ^ 15
unfolding rec_block get_item_id_availability read32 memcpy write8 write32 compose_item_id
few_records = omega arith

abbrev Key : Rid → List (List ℕ) → Type 0
Key =
    HasKey zero_block (λ s. s.records) (λ s. s.strings) put_records put_strings (λ s. refl)
      (λ s. refl) fsm_pool fsm_pool 9 db

record_zero-Key : Key rid_zero ((8 ∷ 9 ∷ []) ∷ [])
unfolding still-HasItems
record_zero-Key = (
  record_zero,
  (
    (0, refl, omega arith, few_records, slot_zero),
    (omega arith, omega arith),
    (omega arith, omega arith),
  ),
  ((refl, tail-IsItem), omega arith, omega arith),
)

record_one-Key : Key rid_one (replicate 20 7 ∷ (8 ∷ 9 ∷ []) ∷ [])
unfolding still-HasItems
record_one-Key = (
  record_one,
  (
    (0, refl, omega arith, few_records, slot_one),
    (omega arith, omega arith),
    (omega arith, omega arith),
  ),
  (
    rid_zero,
    0,
    (refl, front-IsItem),
    omega arith,
    omega arith,
    (omega arith, omega arith),
    refl,
    ((refl, tail-IsItem), omega arith, omega arith),
  ),
)

abbrev records : Items Db
records =
    tbl_rec zero_block (λ s. s.records) (λ s. s.strings) put_records put_strings (λ s. refl)
      (λ s. refl) fsm_pool fsm_pool 9

abbrev strings : Items Db
strings =
    tbl_str zero_block (λ s. s.records) (λ s. s.strings) put_records put_strings (λ s. refl)
      (λ s. refl) fsm_pool fsm_pool 9

row_row_cmp-chars_example :
    row_row_cmp records strings 30 rid_zero rid_one db
    ≡ some (compare_chars (8 ∷ 9 ∷ []) (replicate 20 7 ++ 8 ∷ 9 ∷ []), db)
row_row_cmp-chars_example =
    row_row_cmp-chars zero_block (λ s. s.records) (λ s. s.strings) put_records put_strings
      (λ s. refl) (λ s. refl) fsm_pool fsm_pool 9 db rid_zero rid_one ((8 ∷ 9 ∷ []) ∷ [])
      (replicate 20 7 ∷ (8 ∷ 9 ∷ []) ∷ []) 30 record_zero-Key record_one-Key (omega arith)

ptr_row_cmp-chars_example :
    ptr_row_cmp records strings (8 ∷ 9 ∷ 1 ∷ []) 2 rid_zero db
    ≡ some (compare_chars (8 ∷ 9 ∷ []) (8 ∷ 9 ∷ []), db)
ptr_row_cmp-chars_example =
    ptr_row_cmp-chars zero_block (λ s. s.records) (λ s. s.strings) put_records put_strings
      (λ s. refl) (λ s. refl) fsm_pool fsm_pool 9 db (8 ∷ 9 ∷ 1 ∷ []) 2 rid_zero ((8 ∷ 9 ∷ []) ∷ [])
      record_zero-Key

-- An index with the first record.
abbrev index : Index Db
index = record {
  search = λ key key_len s. some (rid_zero, s);
  insert = λ rid s. some (rid, s);
  delete = λ rid s. some (tt, s);
}

zero-IsValue :
    IsValue zero_block
      (λ s. s.records)
      (λ s. s.strings)
      put_records
      put_strings
      (λ s. refl)
      (λ s. refl)
      fsm_pool
      fsm_pool
      9
      db
      rid_zero
      (some (replicate 20 7 ++ 8 ∷ 9 ∷ []))
unfolding still-HasItems
zero-IsValue = (
  refl,
  record_zero,
  (
    (0, refl, omega arith, few_records, slot_zero),
    (omega arith, omega arith),
    (omega arith, omega arith),
  ),
  replicate 20 7 ∷ (8 ∷ 9 ∷ []) ∷ [],
  (
    rid_zero,
    0,
    (refl, front-IsItem),
    omega arith,
    omega arith,
    (omega arith, omega arith),
    refl,
    ((refl, tail-IsItem), omega arith, omega arith),
  ),
  refl,
)

myjql_get-IsValue_example :
    myjql_get index records strings 9 (8 ∷ 9 ∷ []) 2 21 db
    ≡ some (some (replicate 20 7 ++ 8 ∷ []), db)
myjql_get-IsValue_example =
    myjql_get-IsValue zero_block (λ s. s.records) (λ s. s.strings) put_records put_strings
      (λ s. refl) (λ s. refl) fsm_pool fsm_pool 9 index 9 db db rid_zero (8 ∷ 9 ∷ []) 2 21
      (some (replicate 20 7 ++ 8 ∷ 9 ∷ [])) refl zero-IsValue
