-- ===== src/Myjql/Handlers.antt =====
-- The handlers of src/myjql.c for the keys of inner nodes, and the index that it makes of
-- src/b_tree.c.
use my_jql.Prelude.{ℕ, zero, suc, minus_one, ◌=ℤ◌, true, false, List, [], ◌∷◌}
use my_jql.Exec.{Exec, pure, undefined, ◌>>=◌, ◌>>◌}
use my_jql.Pages.{Pages}
use my_jql.Table.{Rid, Items}
use my_jql.Tree.{TreePage}
use my_jql.Tree.Search.{b_tree_search}
use my_jql.Tree.Insert.{b_tree_insert}
use my_jql.Tree.Delete.{b_tree_delete}
use my_jql.Str.{
  no_rid, encode_chunk, decode_chunk, calc_str_chunk_size, str_chunk_max_size, delete_string,
}
use my_jql.Myjql.{Index, read_record, write_record, delete_record, row_row_cmp, ptr_row_cmp}

module _ {S : Type 0} (tbl_rec tbl_str : Items S) where
  -- The ids of the chunks of a string, the last chunk first: the list behind `front`.
  unfoldable pub chunk_list : (fuel : ℕ) → Rid → List Rid → Exec S (List Rid)
  chunk_list zero rid front = undefined
  chunk_list (suc fuel) rid front = elim (rid.block_addr =ℤ minus_one) [
    | true ↦ pure front
    | false ↦ (do bytes ← tbl_str.read rid; chunk_list fuel (decode_chunk bytes).rid (rid ∷ front))
  ]

  -- The chunks in front of the tail are copied, each with the id of the copy behind it.
  unfoldable pub copy_chunks : List Rid → Rid → Exec S Rid
  copy_chunks [] nxt_chunk = pure nxt_chunk
  copy_chunks (rid ∷ front) nxt_chunk = do
    bytes ← tbl_str.read rid
    let chunk = decode_chunk bytes
    copied ← tbl_str.insert (encode_chunk (record chunk { rid = nxt_chunk })) str_chunk_max_size
    copy_chunks front copied

  -- The tail is copied as it is. For a string without chunks `front` is `NULL`.
  unfoldable pub copy_string : List Rid → Exec S Rid
  copy_string [] = undefined
  copy_string (rid ∷ front) = do
    bytes ← tbl_str.read rid
    nxt_chunk ← tbl_str.insert bytes (calc_str_chunk_size (decode_chunk bytes).size)
    copy_chunks front nxt_chunk

  -- A copy of the key of a record, in a record without a value.
  unfoldable pub insert_handler : (fuel : ℕ) → Rid → Exec S Rid
  insert_handler fuel rid = do
    record' ← read_record tbl_rec rid
    front ← chunk_list fuel record'.key []
    key ← copy_string front
    write_record tbl_rec (record { key = key; value = no_rid })

  unfoldable pub delete_handler : (fuel : ℕ) → Rid → Exec S (Unit {0})
  delete_handler fuel rid = do
    record' ← read_record tbl_rec rid
    delete_string tbl_str fuel record'.key
    delete_string tbl_str fuel record'.value
    delete_record tbl_rec rid

-- `height` bounds the nodes on a way down the tree, `fuel` the chars and chunks of a string.
unfoldable pub b_tree_index :
    {S : Type 0} → Pages S TreePage → (tbl_rec tbl_str : Items S) (height fuel : ℕ) → Index S
b_tree_index bp_idx tbl_rec tbl_str height fuel = record {
  search = λ key key_len. b_tree_search bp_idx (ptr_row_cmp tbl_rec tbl_str) key key_len height;
  insert =
      b_tree_insert bp_idx (row_row_cmp tbl_rec tbl_str fuel) (insert_handler tbl_rec tbl_str fuel)
        height;
  delete =
      b_tree_delete bp_idx (row_row_cmp tbl_rec tbl_str fuel) (insert_handler tbl_rec tbl_str fuel)
        (delete_handler tbl_rec tbl_str fuel) height;
}
