-- ===== src/Block/Relocate.antt =====
-- The second loop of `delete_item` of src/block.c: it visits every id once.
use my_jql.Prelude.{
  ℕ, zero, suc, ◌+◌, ◌≤◌, ◌<◌, ◌≡◌, ◌≢◌, refl, ap, ◌∙◌, arith, ◌==◌, ltb, ◌&&◌, if◌then◌else◌,
}
use native.Mathlib.Decide.{ℕ_discrete}
use my_jql.Memory.{Memory, read32, write32_outside}
use my_jql.Block.{
  item_id_at, compose_item_id, get_item_id_availability, get_item_id_offset, get_item_id_size,
  relocate, relocate_all,
}
use my_jql.Block.Ids.{compose-lt, id-set_self, id-set_ne}

-- What one round of the relocation makes of the id word `w`.
abbrev pub relocated : (item_offset item_size w : ℕ) → ℕ
relocated o n w =
    if (get_item_id_availability w == 0) && ltb (get_item_id_offset w) o
    then compose_item_id 0 (get_item_id_offset w + n) (get_item_id_size w)
    else w

module _ (o n : ℕ) where
  relocate_self :
      (m : Memory) (i : ℕ)
      → read32 (relocate m o n i) (item_id_at i) ≡ relocated o n (read32 m (item_id_at i))
  unfolding relocate
  relocate_self m i =
      let w = read32 m (item_id_at i) in
      let v = compose_item_id 0 (get_item_id_offset w + n) (get_item_id_size w) in
      ground
        (arith, id-set_self m i v, compose-lt 0 (get_item_id_offset w + n) (get_item_id_size w))

  relocate_ne :
      (m : Memory) (i j : ℕ)
      → i ≢ j
      → read32 (relocate m o n i) (item_id_at j) ≡ read32 m (item_id_at j)
  unfolding relocate
  relocate_ne m i j ne =
      let w = read32 m (item_id_at i) in
      let v = compose_item_id 0 (get_item_id_offset w + n) (get_item_id_size w) in
      ground (arith, id-set_ne m i v j ne)

  relocate_outside : (m : Memory) (i x : ℕ) → item_id_at i + 4 ≤ x → relocate m o n i x ≡ m x
  unfolding relocate
  relocate_outside m i x h =
      let w = read32 m (item_id_at i) in
      let v = compose_item_id 0 (get_item_id_offset w + n) (get_item_id_size w) in
      ground (arith, write32_outside m (item_id_at i) v x)

  -- The loop relocates each of its ids once, and no other.
  relocate_all-below :
      (m : Memory) (rounds i j : ℕ)
      → j < i
      → read32 (relocate_all m o n rounds i) (item_id_at j) ≡ read32 m (item_id_at j)
  unfolding relocate_all
  relocate_all-below m zero i j h = refl
  relocate_all-below m (suc rounds) i j h =
      relocate_all-below (relocate m o n i) rounds (i + 1) j (omega arith)
      ∙ relocate_ne m i j (omega arith)

  pub relocate_all-at :
      (m : Memory) (rounds i j : ℕ)
      → i ≤ j
      → j < i + rounds
      → read32 (relocate_all m o n rounds i) (item_id_at j)
        ≡ relocated o n (read32 m (item_id_at j))
  unfolding relocate_all
  relocate_all-at m zero i j lo hi = absurd (omega arith)
  relocate_all-at m (suc rounds) i j lo hi = elim (ℕ_discrete i j) [
    | yes e ↦
        rw (← e)
          (relocate_all-below (relocate m o n i) rounds (i + 1) i (omega arith) ∙ relocate_self m i)
    | no ne ↦
        relocate_all-at (relocate m o n i) rounds (i + 1) j (omega arith) (omega arith)
        ∙ ap (relocated o n) (relocate_ne m i j ne)
  ]

  pub relocate_all_outside :
      (m : Memory) (rounds i x : ℕ)
      → item_id_at (i + rounds) ≤ x
      → relocate_all m o n rounds i x ≡ m x
  unfolding relocate_all
  relocate_all_outside m zero i x h = refl
  relocate_all_outside m (suc rounds) i x h =
      relocate_all_outside (relocate m o n i) rounds (i + 1) x (omega arith)
      ∙ relocate_outside m i x (omega arith)
