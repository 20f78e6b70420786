-- ===== src/Myjql.antt =====
-- src/myjql.c: get, set and del over an index of records and two tables, one of records and one of
-- strings.
pub mod Handlers
pub mod Compare
pub mod Rows
pub mod Get
mod Tests
use my_jql.Prelude.{
  ℕ, zero, suc, ◌+◌, ℤ, pos, negsuc, minus_one, ◌=ℤ◌, Bool, true, false, ◌&&◌, Option, none, some,
  List, [], ◌∷◌, ◌++◌, drop, take, length, ◌==◌, if◌then◌else◌,
}
use my_jql.Exec.{Exec, pure, undefined, ◌>>=◌, ◌>>◌}
use my_jql.Pages.{Pages}
use my_jql.Table.{Rid, Items}
use my_jql.Str.{
  StringChunk, StringRecord, encode_rid, decode_rid, read_string, write_string, delete_string,
  load_string, has_next_char, next_char,
}
use my_jql.Str.Compare.{differ, compare_records}

pub record Record : Type 0 where
  pub key : Rid
  pub value : Rid

-- The 20 bytes of a `Record`.
unfoldable pub encode_record : Record → List ℕ
encode_record record' = encode_rid record'.key ++ encode_rid record'.value

unfoldable pub decode_record : List ℕ → Record
decode_record bytes = record { key = decode_rid bytes; value = decode_rid (drop 10 bytes) }

module _ {S : Type 0} (tbl_rec : Items S) where
  unfoldable pub read_record : Rid → Exec S Record
  read_record rid = do bytes ← tbl_rec.read rid; pure (decode_record bytes)

  unfoldable pub write_record : Record → Exec S Rid
  write_record record' = tbl_rec.insert (encode_record record') 20

  unfoldable pub delete_record : Rid → Exec S (Unit {0})
  delete_record rid = tbl_rec.delete rid

module _ {S : Type 0} (tbl_str : Items S) where
  -- The loop of `ptr_row_cmp` over the rest of the key, and the tests behind it.
  unfoldable pub compare_key : List ℕ → StringRecord → Exec S ℤ
  compare_key [] r = if has_next_char r then pure (negsuc 0) else pure (pos 0)
  compare_key (a ∷ key) r = elim (has_next_char r) [
    | true ↦ (do
      (b, r') ← next_char tbl_str r
      elim (a == b) [ true ↦ compare_key key r' | false ↦ pure (differ a b) ])
    | false ↦ pure (pos 1)
  ]

module _ {S : Type 0} (tbl_rec tbl_str : Items S) where
  -- The fuel bounds the chars that are compared.
  unfoldable pub row_row_cmp : (fuel : ℕ) → Rid → Rid → Exec S ℤ
  row_row_cmp fuel rid1 rid2 = do
    record1 ← read_record tbl_rec rid1
    str_record1 ← read_string tbl_str record1.key
    record2 ← read_record tbl_rec rid2
    str_record2 ← read_string tbl_str record2.key
    if str_record1.chunk.size == 0
        then pure (negsuc 0)
        else if str_record2.chunk.size == 0
        then pure (pos 1)
        else compare_records tbl_str fuel str_record1 str_record2

  unfoldable pub ptr_row_cmp : (key : List ℕ) (key_len : ℕ) → Rid → Exec S ℤ
  ptr_row_cmp key key_len rid = do
    record' ← read_record tbl_rec rid
    str_record ← read_string tbl_str record'.key
    if str_record.chunk.size == 0
        then pure (pos 1)
        else compare_key tbl_str (take key_len key) str_record

-- What `b_tree_search` returns for a key that is not there.
abbrev pub is_failed : Rid → Bool
is_failed rid = (rid.block_addr =ℤ minus_one) && (rid.idx =ℤ pos 0)

-- The functions of src/b_tree.c as they are called, with the comparisons and handlers of this file.
pub record Index (S : Type 0) : Type 0 where
  pub search : (key : List ℕ) (key_len : ℕ) → Exec S Rid
  pub insert : Rid → Exec S Rid
  pub delete : Rid → Exec S (Unit {0})

-- The fuel bounds the chunks of a string that is deleted.
module _ {S : Type 0} (bp_idx : Index S) (tbl_rec tbl_str : Items S) (fuel : ℕ) where
  -- `none` stands for the result -1: the key does not exist.
  unfoldable pub myjql_get : (key : List ℕ) (key_len max_size : ℕ) → Exec S (Option (List ℕ))
  myjql_get key key_len max_size = do
    bp_result ← bp_idx.search key key_len
    if is_failed bp_result then pure none else (do
      table_record ← read_record tbl_rec bp_result
      string_record ← read_string tbl_str table_record.value
      chars ← load_string tbl_str string_record max_size
      pure (some chars))

  -- A key that is not there.
  unfoldable pub set_new :
      (key : List ℕ) (key_len : ℕ) (value : List ℕ) (value_len : ℕ) → Exec S (Unit {0})
  set_new key key_len value value_len = do
    key_rid ← write_string tbl_str key key_len
    value_rid ← write_string tbl_str value value_len
    record_rid ← write_record tbl_rec (record { key = key_rid; value = value_rid })
    rid ← bp_idx.insert record_rid
    pure tt

  -- A key that is there: its record is replaced by one with the new value.
  unfoldable pub set_old : Rid → (value : List ℕ) (value_len : ℕ) → Exec S (Unit {0})
  set_old bp_result value value_len = do
    record' ← read_record tbl_rec bp_result
    delete_string tbl_str fuel record'.value
    new_value_rid ← write_string tbl_str value value_len
    bp_idx.delete bp_result
    delete_record tbl_rec bp_result
    new_bp_result ← write_record tbl_rec (record { key = record'.key; value = new_value_rid })
    rid ← bp_idx.insert new_bp_result
    pure tt

  unfoldable pub myjql_set :
      (key : List ℕ) (key_len : ℕ) (value : List ℕ) (value_len : ℕ) → Exec S (Unit {0})
  myjql_set key key_len value value_len = do
    bp_result ← bp_idx.search key key_len
    if is_failed bp_result
        then set_new key key_len value value_len
        else set_old bp_result value value_len

  unfoldable pub myjql_del : (key : List ℕ) (key_len : ℕ) → Exec S (Unit {0})
  myjql_del key key_len = do
    bp_result ← bp_idx.search key key_len
    if is_failed bp_result then pure tt else (do
      bp_idx.delete bp_result
      table_record ← read_record tbl_rec bp_result
      delete_string tbl_str fuel table_record.key
      delete_string tbl_str fuel table_record.value
      delete_record tbl_rec bp_result)
