-- ===== src/Block/Ids.antt =====
-- The packed item ids of include/block.h, and which accesses to a page leave an id alone.
use my_jql.Prelude.{ℕ, ◌+◌, ◌%◌, ◌^◌, ◌≤◌, ◌<◌, ◌≡◌, ◌≢◌, ◌⊎◌, inl, inr, List, arith, lt_or_ge}
use my_jql.Memory.{
  Memory, read32, memcpy, slide, read32-write32_self, read32_ext, write32_outside, memcpy_outside,
  slide_outside,
}
use my_jql.Block.{
  get_item_id_availability, get_item_id_offset, get_item_id_size, compose_item_id, item_id_at,
  set_item_id,
}

-- Three fields that fit their widths come back from the word that `compose_item_id` packs them into,
-- and the top bit of the word is 0.
pub compose_item_id_lem :
    (availability offset size : ℕ)
    → availability < 2
    → offset < 2 ^ 15
    → size < 2 ^ 15
    → let item_id = compose_item_id availability offset size in
      (get_item_id_availability item_id ≡ availability)
      × (get_item_id_offset item_id ≡ offset)
      × (get_item_id_size item_id ≡ size)
      × (item_id < 2 ^ 31)
unfolding get_item_id_availability get_item_id_offset get_item_id_size compose_item_id
compose_item_id_lem availability offset size ha ho hs = omega arith

pub compose-lt : (availability offset size : ℕ) → compose_item_id availability offset size < 2 ^ 32
unfolding compose_item_id
compose-lt availability offset size = omega arith

pub availability-lt : (item_id : ℕ) → get_item_id_availability item_id < 2
unfolding get_item_id_availability
availability-lt item_id = omega arith

pub offset-lt : (item_id : ℕ) → get_item_id_offset item_id < 2 ^ 15
unfolding get_item_id_offset
offset-lt item_id = omega arith

pub size-lt : (item_id : ℕ) → get_item_id_size item_id < 2 ^ 15
unfolding get_item_id_size
size-lt item_id = omega arith

module _ (m : Memory) (i : ℕ) where
  pub id-set_self : (v : ℕ) → v < 2 ^ 32 → read32 (set_item_id m i v) (item_id_at i) ≡ v
  id-set_self v h = read32-write32_self m (item_id_at i) v h

  pub id-set_ne :
      (v j : ℕ) → i ≢ j → read32 (set_item_id m i v) (item_id_at j) ≡ read32 m (item_id_at j)
  id-set_ne v j ne =
      read32_ext (set_item_id m i v) m (item_id_at j)
        λ x lo hi. write32_outside m (item_id_at i) v x (apart x lo hi)
    where
      apart :
          (x : ℕ)
          → item_id_at j ≤ x
          → x < item_id_at j + 4
          → (x < item_id_at i) ⊎ (item_id_at i + 4 ≤ x)
      apart x lo hi = elim (lt_or_ge i j) [
        | inl lt ↦ inr (omega arith)
        | inr ge ↦ inl (omega arith)
      ]

  pub id-memcpy :
      (a : ℕ) (xs : List ℕ)
      → item_id_at i + 4 ≤ a
      → read32 (memcpy m a xs) (item_id_at i) ≡ read32 m (item_id_at i)
  id-memcpy a xs h =
      read32_ext (memcpy m a xs) m (item_id_at i)
        λ x lo hi. memcpy_outside m a xs x (inl (omega arith))

  pub id-slide :
      (start target n : ℕ)
      → item_id_at i + 4 ≤ target
      → read32 (slide m start target n) (item_id_at i) ≡ read32 m (item_id_at i)
  id-slide start target n h =
      read32_ext (slide m start target n) m (item_id_at i)
        λ x lo hi. slide_outside m start target n x (inl (omega arith))

-- Whatever is packed, each field comes back reduced to its width.
pub compose-fields :
    (availability offset size : ℕ)
    → let item_id = compose_item_id availability offset size in
      (get_item_id_availability item_id ≡ availability % 2)
      × (get_item_id_offset item_id ≡ offset % 2 ^ 15)
      × (get_item_id_size item_id ≡ size % 2 ^ 15)
unfolding get_item_id_availability get_item_id_offset get_item_id_size compose_item_id
compose-fields availability offset size = omega arith
