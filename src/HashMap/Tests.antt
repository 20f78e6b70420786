-- ===== src/HashMap/Tests.antt =====
-- The operations of src/hash_map.c on small files.
use my_jql.Prelude.{◌≤◌, ℕ, ◌+◌, ℤ, pos, ◌≡◌, refl, Option, none, some, List, [], ◌∷◌, arith}
use my_jql.Exec.{Exec, pure, ◌>>=◌, ◌>>◌}
use my_jql.Pages.{Flat, flat_pages}
use my_jql.HashMap.{
  Words, table, n_items, hash_table_init, init_directory, hash_table_insert, insert_empty,
  insert_chain, insert_fresh, insert_reused, insert_room, insert_before, fill_block,
}
use my_jql.HashMap.Pop.{
  drop_item, shift_items, find_item, hash_table_pop, hash_table_pop_lower_bound, pop_walk,
  pop_found, pop_first, free_block, scan,
}
use my_jql.HashMap.Items.{items, items-drop_item, find_item-drop_item}
use my_jql.Tree.Rows.{remove_at}

abbrev numbered : Words
numbered w = pos (100 + w)

items-drop_item_example :
    (items (drop_item numbered 4 1) 3 ≡ remove_at (items numbered 4) 1)
    × (drop_item numbered 4 1 n_items ≡ pos 3)
    × (drop_item numbered 4 1 0 ≡ numbered 0)
items-drop_item_example = items-drop_item numbered 4 1 (omega arith)

find_item-drop_item_example :
    (k : ℕ) × (find_item numbered (pos 104) 5 0 none ≡ some k)
    × (numbered (table k) ≡ pos 104)
    × (2 ≤ k)
    × (items (drop_item numbered 5 k) 4 ≡ remove_at (items numbered 5) k)
find_item-drop_item_example = find_item-drop_item numbered (pos 104) 5 2 (omega arith) refl

abbrev pages_of_words : Flat Words
pages_of_words = record { page = λ m w. pos 0; length = 0 }

abbrev result : Option (List ℤ × Flat Words) → List ℤ
result none = []
result (some (a, s)) = a

-- The searches for 4 and for 6 bytes find a page with 5 and one with 20; the last search finds the
-- page with 7 bytes, since those with 5 are gone.
abbrev session : Exec (Flat Words) (List ℤ)
session = do
  hash_table_init (flat_pages (λ w. pos 0)) 2
  hash_table_insert (flat_pages (λ w. pos 0)) 5 (pos 128)
  hash_table_insert (flat_pages (λ w. pos 0)) 5 (pos 256)
  hash_table_insert (flat_pages (λ w. pos 0)) 20 (pos 384)
  a ← hash_table_pop_lower_bound (flat_pages (λ w. pos 0)) 40 4
  b ← hash_table_pop_lower_bound (flat_pages (λ w. pos 0)) 40 6
  hash_table_insert (flat_pages (λ w. pos 0)) 7 (pos 512)
  hash_table_pop (flat_pages (λ w. pos 0)) 40 5 (pos 256)
  c ← hash_table_pop_lower_bound (flat_pages (λ w. pos 0)) 40 4
  pure (a ∷ b ∷ c ∷ [])

session-result : result (session pages_of_words) ≡ pos 128 ∷ pos 384 ∷ pos 512 ∷ []
unfolding flat_pages hash_table_init init_directory hash_table_insert insert_empty insert_chain
    insert_fresh insert_reused insert_room insert_before fill_block drop_item shift_items find_item
    hash_table_pop hash_table_pop_lower_bound pop_walk pop_found pop_first free_block scan
session-result = refl
