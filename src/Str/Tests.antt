-- ===== src/Str/Tests.antt =====
-- The operations of src/str.c over the table of src/table.c, and the theorems there.
use my_jql.Prelude.{ℕ, ◌≡◌, refl, some, List, [], ◌∷◌, replicate, take, arith}
use my_jql.Exec.{◌>>=◌}
use my_jql.Str.{StringChunk, encode_chunk, decode_chunk, read_string, load_string}
use my_jql.Str.Codec.{decode_chunk-encode_chunk}
use my_jql.Str.Laws.{Preserves, joined, Chain}
use my_jql.Str.Load.{load_string-take}
use my_jql.Str.Compare.{compare_chars, compare_string_record, compare_string_record-chars}
use my_jql.Table.Read.{table_items-HasItems}
use my_jql.Table.Sample.{
  TableFiles, table, table-HasItems, rid_zero, rid_one, files, tail-IsItem, front-IsItem,
}

abbrev chars_of_two : List (List ℕ)
chars_of_two = replicate 20 7 ∷ (8 ∷ 9 ∷ []) ∷ []

files-Chain_tail : Chain table-HasItems files rid_zero ((8 ∷ 9 ∷ []) ∷ [])
unfolding table_items-HasItems
files-Chain_tail = (tail-IsItem, omega arith, omega arith)

files-Chain : Chain table-HasItems files rid_one chars_of_two
unfolding table_items-HasItems
files-Chain = (
  rid_zero,
  0,
  front-IsItem,
  omega arith,
  omega arith,
  (omega arith, omega arith),
  refl,
  (tail-IsItem, omega arith, omega arith),
)

load_string-take_example :
    (s' : TableFiles) × ((read_string table rid_one >>= λ r. load_string table r 21) files
      ≡ some (take 21 (joined table-HasItems chars_of_two), s'))
    × Preserves table-HasItems files s'
load_string-take_example = load_string-take table-HasItems files rid_one chars_of_two 21 files-Chain

decode_chunk-encode_chunk_example :
    let chunk : StringChunk = record { rid = rid_one; size = 2; chars = 8 ∷ 9 ∷ [] } in
    decode_chunk (encode_chunk chunk) ≡ chunk
decode_chunk-encode_chunk_example =
    decode_chunk-encode_chunk (record { rid = rid_one; size = 2; chars = 8 ∷ 9 ∷ [] })
      (omega arith, omega arith) (omega arith)

compare_string_record-chars_example :
    (s' : TableFiles) × ((read_string table rid_one >>= λ a.
    read_string table rid_zero >>= λ b. compare_string_record table 30 a b)
        files
      ≡ some (
        compare_chars
            (joined table-HasItems chars_of_two)
            (joined table-HasItems ((8 ∷ 9 ∷ []) ∷ [])),
        s',
      ))
    × Preserves table-HasItems files s'
compare_string_record-chars_example =
    compare_string_record-chars table-HasItems files rid_one rid_zero chars_of_two
      ((8 ∷ 9 ∷ []) ∷ []) 30 files-Chain files-Chain_tail (omega arith)
