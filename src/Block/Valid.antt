-- ===== src/Block/Valid.antt =====
-- The representation invariant of a `Block`, and the items that it stands for.
use my_jql.Prelude.{
  ℕ, ◌+◌, ◌*◌, ◌≤◌, ◌<◌, ◌≡◌, ◌≢◌, ◌⊎◌, Option, none, some, List, ◌==◌, if◌then◌else◌,
}
use my_jql.Memory.{Memory, read32, bytes_at}
use my_jql.FileIo.{page_size}
use my_jql.Block.{
  Block, get_item_id_availability, get_item_id_offset, get_item_id_size, item_id_at, data_offset,
}

abbrev pub available : Memory → ℕ → ℕ
available m i = get_item_id_availability (read32 m (item_id_at i))

abbrev pub offset : Memory → ℕ → ℕ
offset m i = get_item_id_offset (read32 m (item_id_at i))

abbrev pub size : Memory → ℕ → ℕ
size m i = get_item_id_size (read32 m (item_id_at i))

-- Item `i` lies between `tail` and the end of the page.
pub record Inside (m : Memory) (tail i : ℕ) : Type 0 where
  pub not_empty : 0 < size m i
  pub above_tail : tail ≤ offset m i
  pub below_end : offset m i + size m i ≤ page_size

pub record IsValid (b : Block) : Type 0 where
  pub header : b.head_ptr ≡ data_offset + 4 * b.n_items
  pub room : b.head_ptr ≤ b.tail_ptr
  pub in_page : b.tail_ptr ≤ page_size
  pub inside : (i : ℕ) → i < b.n_items → available b.bytes i ≡ 0 → Inside b.bytes b.tail_ptr i
  pub apart :
      (i j : ℕ)
      → i < b.n_items
      → j < b.n_items
      → available b.bytes i ≡ 0
      → available b.bytes j ≡ 0
      → i ≢ j
      → (offset b.bytes i + size b.bytes i ≤ offset b.bytes j)
        ⊎ (offset b.bytes j + size b.bytes j ≤ offset b.bytes i)

-- What id `i` stands for: the bytes of its item, or nothing if the id is available.
unfoldable pub slot : Memory → ℕ → Option (List ℕ)
slot m i = if available m i == 0 then some (bytes_at m (offset m i) (size m i)) else none
