-- ===== src/Block/Insert.antt =====
-- `new_item` of src/block.c: the item that it writes, and the items that it leaves alone.
use my_jql.Prelude.{
  ℕ, zero, suc, ◌+◌, ◌-◌, ◌*◌, ◌≤◌, ◌<◌, ◌≡◌, ◌≢◌, refl, sym, ap, ◌∙◌, ◌⊎◌, inl, inr, List, [], ◌∷◌,
  some, arith, length, take, Bool-cases, ◌==◌,
}
use my_jql.Memory.{
  Memory, read32, memcpy, bytes_at, write32_outside, memcpy_outside, bytes_at_ext,
  bytes_at-memcpy_self,
}
use my_jql.Block.{Block, item_id_at, set_item_id, compose_item_id, sub16, fill_item, data_offset}
use my_jql.Block.Ids.{compose_item_id_lem, compose-lt, id-set_self, id-set_ne, id-memcpy}
use native.Mathlib.Decide.{ℕ_discrete}
use my_jql.Block.Valid.{available, offset, size, Inside, IsValid, slot}

length-take_of_le : (n : ℕ) (xs : List ℕ) → n ≤ length xs → length (take n xs) ≡ n
length-take_of_le zero xs h = refl
length-take_of_le (suc n) [] h = absurd (omega arith)
length-take_of_le (suc n) (x ∷ xs) h = ap suc (length-take_of_le n xs (omega arith))

-- Below, id `idx` is given an item of `n` bytes: the item and the ids together leave room for it.
module _ (b : Block) (idx : ℕ) (item : List ℕ) (n : ℕ) (v : IsValid b) (given : n ≤ length item)
    (positive : 0 < n) (fits : item_id_at idx + 4 + n ≤ b.tail_ptr)
    (fits_ids : b.head_ptr + n ≤ b.tail_ptr) where
  abbrev filled : Memory
  filled = (fill_item b idx item n).bytes

  abbrev with_id : Memory
  with_id = set_item_id b.bytes idx (compose_item_id 0 (b.tail_ptr - n) n)

  new_tail : sub16 b.tail_ptr n ≡ b.tail_ptr - n
  new_tail = omega (arith, v.in_page)

  copied : length (take n item) ≡ n
  copied = length-take_of_le n item given

  pub tail_ptr-fill_item : (fill_item b idx item n).tail_ptr ≡ b.tail_ptr - n
  unfolding fill_item
  tail_ptr-fill_item = new_tail

  filled_lem : filled ≡ memcpy with_id (b.tail_ptr - n) (take n item)
  unfolding fill_item
  filled_lem = rw new_tail

  id_self : read32 filled (item_id_at idx) ≡ compose_item_id 0 (b.tail_ptr - n) n
  id_self =
      rw (filled_lem, id-memcpy with_id idx (b.tail_ptr - n) (take n item) (omega arith))
        (id-set_self b.bytes idx (compose_item_id 0 (b.tail_ptr - n) n)
          (compose-lt 0 (b.tail_ptr - n) n))

  id_other :
      (j : ℕ)
      → j < b.n_items
      → idx ≢ j
      → read32 filled (item_id_at j) ≡ read32 b.bytes (item_id_at j)
  id_other j lt ne =
      rw (filled_lem, id-memcpy with_id j (b.tail_ptr - n) (take n item) (omega (arith, v.header)))
        (id-set_ne b.bytes idx (compose_item_id 0 (b.tail_ptr - n) n) j ne)

  byte_other : (x : ℕ) → b.tail_ptr ≤ x → filled x ≡ b.bytes x
  byte_other x h = rw filled_lem (
      memcpy_outside with_id (b.tail_ptr - n) (take n item) x (inr (omega (arith, copied)))
      ∙ write32_outside b.bytes (item_id_at idx) (compose_item_id 0 (b.tail_ptr - n) n) x
          (inr (omega arith)))

  bytes_self : bytes_at filled (b.tail_ptr - n) n ≡ take n item
  bytes_self = rw filled_lem (
      ap (bytes_at (memcpy with_id (b.tail_ptr - n) (take n item)) (b.tail_ptr - n)) (sym copied)
      ∙ bytes_at-memcpy_self with_id (b.tail_ptr - n) (take n item))

  fields : (available filled idx ≡ 0) × (offset filled idx ≡ b.tail_ptr - n) × (size filled idx ≡ n)
  fields =
      let f =
        compose_item_id_lem 0 (b.tail_ptr - n) n (omega arith) (omega (arith, v.in_page))
          (omega (arith, v.in_page)) in
      rw id_self (f.0, f.1, f.2)

  pub slot-fill_item_self : slot filled idx ≡ some (take n item)
  unfolding slot
  slot-fill_item_self = rw (fields.0, fields.1, fields.2) (ap some bytes_self)

  pub slot-fill_item_ne : (j : ℕ) → j < b.n_items → idx ≢ j → slot filled j ≡ slot b.bytes j
  unfolding slot
  slot-fill_item_ne j lt ne = rw (id_other j lt ne) (elim (Bool-cases (available b.bytes j == 0)) [
    | inl used ↦
        let at : Inside b.bytes b.tail_ptr j = v.inside j lt (ground arith) in
        rw used (
          ap some (
            bytes_at_ext filled b.bytes (offset b.bytes j) (offset b.bytes j) (size b.bytes j)
              λ k hk. byte_other (offset b.bytes j + k) (omega (arith, at.above_tail))))
    | inr free ↦ rw free
  ])

  Inside-self : Inside filled (b.tail_ptr - n) idx
  Inside-self = record {
    not_empty = omega (arith, fields.2);
    above_tail = omega (arith, fields.1);
    below_end = omega (arith, fields.1, fields.2, v.in_page);
  }

  fields_other :
      (j : ℕ)
      → j < b.n_items
      → idx ≢ j
      → (available filled j ≡ available b.bytes j)
        × (offset filled j ≡ offset b.bytes j)
        × (size filled j ≡ size b.bytes j)
  fields_other j lt ne = rw (id_other j lt ne) (refl, refl, refl)

  Inside-other :
      (j : ℕ) → j < b.n_items → idx ≢ j → available filled j ≡ 0 → Inside filled (b.tail_ptr - n) j
  Inside-other j lt ne used =
      let f = fields_other j lt ne in
      let at = v.inside j lt (sym f.0 ∙ used) in
      record {
        not_empty = omega (arith, f.2, at.not_empty);
        above_tail = omega (arith, f.1, at.above_tail);
        below_end = omega (arith, f.1, f.2, at.below_end);
      }

  apart_other :
      (i j : ℕ)
      → i < b.n_items
      → j < b.n_items
      → idx ≢ i
      → idx ≢ j
      → available filled i ≡ 0
      → available filled j ≡ 0
      → i ≢ j
      → (offset filled i + size filled i ≤ offset filled j)
        ⊎ (offset filled j + size filled j ≤ offset filled i)
  apart_other i j hi hj ni nj ui uj ne =
      let f = fields_other i hi ni in
      let g = fields_other j hj nj in
      omega (arith, f.1, f.2, g.1, g.2, v.apart i j hi hj (sym f.0 ∙ ui) (sym g.0 ∙ uj) ne)

  -- Every other item lies above the old `tail_ptr`, so above the new item.
  apart_self :
      (j : ℕ)
      → j < b.n_items
      → idx ≢ j
      → available filled j ≡ 0
      → offset filled idx + size filled idx ≤ offset filled j
  apart_self j lt ne used =
      let f = fields_other j lt ne in
      let at = v.inside j lt (sym f.0 ∙ used) in
      omega (arith, fields.1, fields.2, f.1, at.above_tail)

  -- With `idx` among the ids, the filled block is valid.
  pub IsValid-filled :
      (b' : Block)
      → b'.bytes ≡ filled
      → b'.tail_ptr ≡ b.tail_ptr - n
      → b'.head_ptr ≡ data_offset + 4 * b'.n_items
      → b'.head_ptr + n ≤ b.tail_ptr
      → ((i : ℕ) → i < b'.n_items → idx ≢ i → i < b.n_items)
      → IsValid b'
  IsValid-filled b' same_bytes same_tail header room old = record {
    header = header;
    room = omega arith;
    in_page = omega (arith, v.in_page);
    inside = λ i hi used. rw (same_bytes, same_tail) (inside_at i hi (rw same_bytes at used));
    apart = λ i j hi hj ui uj ne.
        rw same_bytes (apart_at i j hi hj (rw same_bytes at ui) (rw same_bytes at uj) ne);
  }
    where
      inside_at :
          (i : ℕ) → i < b'.n_items → available filled i ≡ 0 → Inside filled (b.tail_ptr - n) i
      inside_at i hi used = elim (ℕ_discrete idx i) [
        | yes e ↦ rw (← e) Inside-self
        | no ne ↦ Inside-other i (old i hi ne) ne used
      ]

      apart_at :
          (i j : ℕ)
          → i < b'.n_items
          → j < b'.n_items
          → available filled i ≡ 0
          → available filled j ≡ 0
          → i ≢ j
          → (offset filled i + size filled i ≤ offset filled j)
            ⊎ (offset filled j + size filled j ≤ offset filled i)
      apart_at i j hi hj ui uj ne = elim (ℕ_discrete idx i) [
        | yes e ↦
            let ne' : idx ≢ j = λ q. ne (sym e ∙ q) in
            rw (← e) (inl (apart_self j (old j hj ne') ne' uj))
        | no ni ↦ elim (ℕ_discrete idx j) [
          | yes e ↦ rw (← e) (inr (apart_self i (old i hi ni) ni ui))
          | no nj ↦ apart_other i j (old i hi ni) (old j hj nj) ni nj ui uj ne
        ]
      ]
