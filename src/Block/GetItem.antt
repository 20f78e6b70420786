-- ===== src/Block/GetItem.antt =====
-- `get_item` and `init_block` of src/block.c against the slots of the block.
use my_jql.Prelude.{
  get_elem?-tabulate_lt, get_elem?-tabulate_ge, ℕ, ◌+◌, ◌^◌, ◌<◌, ◌≡◌, refl, ap, Option, none, some,
  List, [], arith, pos, negsuc, ℤ, get_elem?, lt_or_ge, inl, inr,
}
use mathlib.Core.Option
use my_jql.Memory.{bytes_at}
use my_jql.Block.{Block, get_item, init_block}
use my_jql.Block.Valid.{size, IsValid, slot}
use my_jql.Block.Slots.{slots}

-- The number of an index that is not negative.
abbrev pub number : ℤ → ℕ
number (pos i) = i
number (negsuc i) = 0

-- The bytes that a client may read through the pointer that `get_item` returns.
abbrev pub item_bytes : Block → ℤ → Option (List ℕ)
item_bytes b idx =
    Option.map (λ at. bytes_at b.bytes at (size b.bytes (number idx))) (get_item b idx)

abbrev pub joined {ℓ} : {A : Type ℓ} → Option (Option A) → Option A
joined none = none
joined (some a) = a

-- The item at an index of the row of slots: nothing at a vacant slot or out of range.
abbrev pub slot_at : List (Option (List ℕ)) → ℤ → Option (List ℕ)
slot_at s (negsuc _) = none
slot_at s (pos i) = joined (get_elem? s i)

-- In a block with fewer than `2 ^ 15` slots, for every index, a negative one included: `get_item` returns `NULL` exactly where the row of
-- slots holds no item, and elsewhere a pointer to the bytes of the item.
pub get_item-slot_at :
    (b : Block) (idx : ℤ) → b.n_items < 2 ^ 15 → item_bytes b idx ≡ slot_at (slots b) idx
unfolding get_item slot
get_item-slot_at b (negsuc i) few = refl
get_item-slot_at b (pos i) few = elim (lt_or_ge i b.n_items) [
  | inl lt ↦ ground (
    arith,
    get_elem?-tabulate_lt (slot b.bytes) b.n_items 0 i lt,
    ap (slot b.bytes) (omega_zero i),
  )
  | inr ge ↦ ground (arith, get_elem?-tabulate_ge (slot b.bytes) b.n_items 0 i ge)
]
  where
    omega_zero : (i : ℕ) → 0 + i ≡ i
    omega_zero i = omega arith

-- `init_block` makes a valid block without slots, whatever the page held.
pub init_block-IsValid : (b : Block) → IsValid (init_block b) × (slots (init_block b) ≡ [])
unfolding init_block
init_block-IsValid b = (
  record {
    header = refl;
    room = omega arith;
    in_page = omega arith;
    inside = λ i h u. absurd (omega arith);
    apart = λ i j h k u w ne. absurd (omega arith);
  },
  refl,
)
