-- ===== src/Block/Tests.antt =====
-- The operations of src/block.c on small blocks, and the theorems at such blocks.
use my_jql.Prelude.{◌+◌, ◌<◌, ◌^◌, ◌≡◌, refl, pos, none, some, [], ◌∷◌, arith, set}
use my_jql.Memory.{read32, write32, memcpy, write8, bytes_at, slide}
use my_jql.FileIo.{page_size}
use my_jql.Block.{
  Block, init_block, new_item, delete_item, first_available, fill_item, append_item, relocate,
  relocate_all, drop_last, close_gap, get_item_id_availability, get_item_id_offset,
  get_item_id_size, compose_item_id, data_offset,
}
use my_jql.Block.Valid.{available, size, IsValid, slot}
use my_jql.Block.Slots.{put, trim, slots}
use my_jql.Block.GetItem.{init_block-IsValid, item_bytes, slot_at, get_item-slot_at}
use my_jql.Block.NewItem.{new_item-put}
use my_jql.Block.DeleteItem.{delete_item-trim}
use my_jql.Block.Ids.{compose_item_id_lem}

abbrev fresh : Block
fresh = record { n_items = 0; head_ptr = data_offset; tail_ptr = page_size; bytes = λ _. 0 }

fresh-IsValid : IsValid fresh
unfolding init_block
fresh-IsValid = (init_block-IsValid fresh).0

-- Two items, of three bytes and of two.
two_items : Block
unfolding new_item first_available append_item fill_item
two_items = (new_item (new_item fresh (1 ∷ 2 ∷ 3 ∷ []) 3).0 (4 ∷ 5 ∷ []) 2).0

abbrev one_item : Block
one_item = (new_item fresh (1 ∷ 2 ∷ 3 ∷ []) 3).0

slots-two_items : slots two_items ≡ some (1 ∷ 2 ∷ 3 ∷ []) ∷ some (4 ∷ 5 ∷ []) ∷ []
unfolding two_items slot get_item_id_availability get_item_id_offset get_item_id_size
    compose_item_id read32 write32 memcpy bytes_at
slots-two_items = refl

-- The first item goes, the second slides to the end of the page, and its bytes follow it.
slots-delete_item : slots (delete_item two_items 0) ≡ none ∷ some (4 ∷ 5 ∷ []) ∷ []
unfolding two_items delete_item close_gap drop_last relocate relocate_all slide slot
    get_item_id_availability get_item_id_offset get_item_id_size compose_item_id read32 write32
    memcpy bytes_at
slots-delete_item = refl

one_item-IsValid : IsValid one_item
one_item-IsValid =
    (new_item-put fresh (1 ∷ 2 ∷ 3 ∷ []) 3 fresh-IsValid (omega arith) (omega arith)
      (omega arith)).0

one_item_fields : (available one_item.bytes 0 ≡ 0) × (one_item.n_items ≡ 1)
unfolding new_item first_available append_item fill_item get_item_id_availability compose_item_id
    read32 write32 memcpy
one_item_fields = (refl, refl)

compose_item_id_example :
    let item_id = compose_item_id 1 100 28 in
    (get_item_id_availability item_id ≡ 1)
    × (get_item_id_offset item_id ≡ 100)
    × (get_item_id_size item_id ≡ 28)
    × (item_id < 2 ^ 31)
compose_item_id_example = compose_item_id_lem 1 100 28 (omega arith) (omega arith) (omega arith)

new_item-put_example :
    let (b', i) = new_item fresh (1 ∷ 2 ∷ 3 ∷ []) 3 in
    IsValid b' × (b'.tail_ptr ≡ 125) × ((slots b', i) ≡ put (slots fresh) (1 ∷ 2 ∷ 3 ∷ []))
new_item-put_example =
    new_item-put fresh (1 ∷ 2 ∷ 3 ∷ []) 3 fresh-IsValid (omega arith) (omega arith) (omega arith)

delete_item-trim_example :
    let b' = delete_item one_item 0 in
    IsValid b'
    × (b'.tail_ptr ≡ one_item.tail_ptr + size one_item.bytes 0)
    × (slots b' ≡ trim (set (slots one_item) 0 none))
delete_item-trim_example =
    delete_item-trim one_item 0 one_item-IsValid (omega (arith, one_item_fields.1))
      one_item_fields.0

init_block-IsValid_example : IsValid (init_block two_items) × (slots (init_block two_items) ≡ [])
init_block-IsValid_example = init_block-IsValid two_items

few_items : two_items.n_items < 2 ^ 15
unfolding two_items get_item_id_availability read32 memcpy write8 write32 compose_item_id
few_items = omega arith

get_item-slot_at_example : item_bytes two_items (pos 1) ≡ slot_at (slots two_items) (pos 1)
get_item-slot_at_example = get_item-slot_at two_items (pos 1) few_items
