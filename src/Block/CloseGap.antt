-- ===== src/Block/CloseGap.antt =====
-- `delete_item` of src/block.c up to its last step: the hole is closed, and the ids follow the
-- items that moved.
use my_jql.Prelude.{
  ℕ, ◌+◌, ◌-◌, ◌≤◌, ◌<◌, ◌≡◌, ◌≢◌, refl, sym, ap, ◌∙◌, ◌⊎◌, inl, inr, none, some, arith, Bool-cases,
  ◌==◌, ltb, ltb→lt, ltb→ge,
}
use my_jql.Memory.{
  Memory, read32, slide, bytes_at, write32_outside, bytes_at_ext, slide_outside, slide_inside,
}
use my_jql.Block.{
  Block, item_id_at, set_item_id, compose_item_id, get_item_id, get_item_id_offset,
  get_item_id_size, relocate_all, close_gap, add16, sub16,
}
use my_jql.Block.Ids.{
  compose_item_id_lem, compose-fields, compose-lt, offset-lt, size-lt, id-set_self, id-set_ne,
  id-slide,
}
use my_jql.Block.Valid.{available, offset, size, Inside, IsValid, slot}
use my_jql.Block.Relocate.{relocated, relocate_all-at, relocate_all_outside}

pub kept_fields :
    (b : Block) (idx : ℕ)
    → ((close_gap b idx).n_items ≡ b.n_items) × ((close_gap b idx).head_ptr ≡ b.head_ptr)
unfolding close_gap
kept_fields b idx = (refl, refl)

-- Below, item `idx` of a valid block is deleted; it has `n` bytes at offset `o`.
module _ (b : Block) (idx : ℕ) (v : IsValid b) (known : idx < b.n_items)
    (used : available b.bytes idx ≡ 0) where
  abbrev o : ℕ
  o = offset b.bytes idx

  abbrev n : ℕ
  n = size b.bytes idx

  abbrev freed : Memory
  freed = set_item_id b.bytes idx (compose_item_id 1 o n)

  abbrev moved : Memory
  moved = slide freed b.tail_ptr (b.tail_ptr + n) (o - b.tail_ptr)

  abbrev closed : Memory
  closed = (close_gap b idx).bytes

  hole : Inside b.bytes b.tail_ptr idx
  hole = v.inside idx known used

  tails :
      (add16 b.tail_ptr n ≡ b.tail_ptr + n)
      × (sub16 (b.tail_ptr + n) n ≡ b.tail_ptr)
      × (o + n - (b.tail_ptr + n) ≡ o - b.tail_ptr)
  tails = omega (arith, hole.below_end, hole.above_tail)

  pub tail_ptr-close_gap : (close_gap b idx).tail_ptr ≡ b.tail_ptr + n
  unfolding close_gap
  tail_ptr-close_gap = tails.0

  closed_lem : closed ≡ relocate_all moved o n b.n_items 0
  unfolding close_gap
  closed_lem = rw (tails.0, tails.1, tails.2)

  id_moved :
      (j : ℕ)
      → j < b.n_items
      → idx ≢ j
      → read32 moved (item_id_at j) ≡ read32 b.bytes (item_id_at j)
  id_moved j lt ne =
      id-slide freed j b.tail_ptr (b.tail_ptr + n) (o - b.tail_ptr)
        (omega (arith, v.header, v.room))
      ∙ id-set_ne b.bytes idx (compose_item_id 1 o n) j ne

  id_hole : read32 moved (item_id_at idx) ≡ compose_item_id 1 o n
  id_hole =
      id-slide freed idx b.tail_ptr (b.tail_ptr + n) (o - b.tail_ptr)
        (omega (arith, v.header, v.room))
      ∙ id-set_self b.bytes idx (compose_item_id 1 o n) (compose-lt 1 o n)

  id_closed :
      (j : ℕ)
      → j < b.n_items
      → idx ≢ j
      → read32 closed (item_id_at j) ≡ relocated o n (read32 b.bytes (item_id_at j))
  id_closed j lt ne = rw closed_lem (
      relocate_all-at o n moved b.n_items 0 j (omega arith) (omega arith)
      ∙ ap (relocated o n) (id_moved j lt ne))

  vacated : available closed idx ≡ 1
  vacated =
      let f =
        compose_item_id_lem 1 o n (omega arith) (offset-lt (get_item_id b idx))
          (size-lt (get_item_id b idx)) in
      rw
        (closed_lem, relocate_all-at o n moved b.n_items 0 idx (omega arith) (omega arith), id_hole)
        (ground (arith, f.0))

  -- The byte that was at `x` above the ids: below the hole it has moved, above it it stays.
  byte_below : (x : ℕ) → b.tail_ptr ≤ x → x < o → closed (x + n) ≡ b.bytes x
  byte_below x lo hi = rw closed_lem (
      relocate_all_outside o n moved b.n_items 0 (x + n) (omega (arith, v.header, v.room))
      ∙ ap moved (omega arith)
      ∙ slide_inside freed b.tail_ptr (b.tail_ptr + n) (o - b.tail_ptr) (x - b.tail_ptr)
          (omega arith) (omega arith)
      ∙ ap freed (omega arith)
      ∙ write32_outside b.bytes (item_id_at idx) (compose_item_id 1 o n) x
          (inr (omega (arith, v.header, v.room))))

  byte_above : (x : ℕ) → o + n ≤ x → closed x ≡ b.bytes x
  byte_above x lo = rw closed_lem (
      relocate_all_outside o n moved b.n_items 0 x
        (omega (arith, v.header, v.room, hole.above_tail))
      ∙ slide_outside freed b.tail_ptr (b.tail_ptr + n) (o - b.tail_ptr) x
          (inr (omega (arith, hole.above_tail)))
      ∙ write32_outside b.bytes (item_id_at idx) (compose_item_id 1 o n) x
          (inr (omega (arith, v.header, v.room, hole.above_tail))))

  vacant_other : (j : ℕ) → j < b.n_items → idx ≢ j → available closed j ≡ available b.bytes j
  vacant_other j lt ne =
      let w = get_item_id b j in
      rw (id_closed j lt ne)
        (ground (arith, compose-fields 0 (get_item_id_offset w + n) (get_item_id_size w)))

  -- Another item keeps its size; it moves up by `n` if it lies below the hole.
  record Follows (j : ℕ) : Type 0 where
    size_kept : size closed j ≡ size b.bytes j
    placed :
        ((offset b.bytes j + size b.bytes j ≤ o) × (offset closed j ≡ offset b.bytes j + n))
        ⊎ ((o + n ≤ offset b.bytes j) × (offset closed j ≡ offset b.bytes j))

  follows : (j : ℕ) → j < b.n_items → idx ≢ j → available b.bytes j ≡ 0 → Follows j
  follows j lt ne u =
      let w = get_item_id b j in
      let at = v.inside j lt u in
      let f = compose-fields 0 (get_item_id_offset w + n) (get_item_id_size w) in
      let sides = v.apart j idx lt known u used (λ e. ne (sym e)) in
      let e = id_closed j lt ne in
      elim (Bool-cases (ltb (offset b.bytes j) o)) [
        | inl below ↦ record {
          size_kept = rw e (ground (arith, f, u, below, size-lt w));
          placed = inl (
            omega (arith, sides, hole.not_empty, ltb→lt _ _ below),
            rw e (ground (arith, f, u, below, hole.below_end)),
          );
        }
        | inr above ↦ record {
          size_kept = rw e (ground (arith, f, u, above));
          placed = inr (
            omega (arith, sides, at.not_empty, ltb→ge _ _ above),
            rw e (ground (arith, f, u, above)),
          );
        }
      ]

  pub slot-close_gap_self : slot closed idx ≡ none
  unfolding slot
  slot-close_gap_self = rw vacated

  pub slot-close_gap_ne : (j : ℕ) → j < b.n_items → idx ≢ j → slot closed j ≡ slot b.bytes j
  unfolding slot
  slot-close_gap_ne j lt ne =
      rw (vacant_other j lt ne) (elim (Bool-cases (available b.bytes j == 0)) [
        | inl u ↦ rw u (ap some (same_bytes (ground arith)))
        | inr free ↦ rw free
      ])
    where
      same_bytes :
          available b.bytes j ≡ 0
          → bytes_at closed (offset closed j) (size closed j)
            ≡ bytes_at b.bytes (offset b.bytes j) (size b.bytes j)
      same_bytes u =
          let at = v.inside j lt u in
          let f = follows j lt ne u in
          rw f.size_kept (
            bytes_at_ext closed b.bytes (offset closed j) (offset b.bytes j) (size b.bytes j)
              λ k hk. elim f.placed [
                | inl (below, e) ↦
                    ap closed (omega (arith, e))
                    ∙ byte_below (offset b.bytes j + k) (omega (arith, at.above_tail)) (omega arith)
                | inr (above, e) ↦
                    ap closed (omega (arith, e)) ∙ byte_above (offset b.bytes j + k) (omega arith)
              ])

  -- The invariant, all but the last id, which may be vacant.
  pub close_gap-IsValid : IsValid (close_gap b idx)
  close_gap-IsValid = record {
    header = rw (kept.0, kept.1) v.header;
    room = rw (kept.1, tail_ptr-close_gap) (omega (arith, v.room));
    in_page = rw tail_ptr-close_gap (omega (arith, hole.below_end, hole.above_tail));
    inside = λ i hi ui. rw tail_ptr-close_gap (inside_at i (rw kept.0 at hi) (filled_ne i ui) ui);
    apart = λ i j hi hj ui uj ne.
        let hi' : i < b.n_items = rw kept.0 at hi in
        let hj' : j < b.n_items = rw kept.0 at hj in
        apart_at i j hi' hj' (filled_ne i ui) (filled_ne j uj) ui uj ne;
  }
    where
      kept : ((close_gap b idx).n_items ≡ b.n_items) × ((close_gap b idx).head_ptr ≡ b.head_ptr)
      kept = kept_fields b idx

      filled_ne : (i : ℕ) → available closed i ≡ 0 → idx ≢ i
      filled_ne i ui e = absurd (omega (arith, ui, vacated, ap (available closed) e))

      inside_at :
          (i : ℕ)
          → i < b.n_items
          → idx ≢ i
          → available closed i ≡ 0
          → Inside closed (b.tail_ptr + n) i
      inside_at i hi ni ui =
          let u = sym (vacant_other i hi ni) ∙ ui in
          let at = v.inside i hi u in
          let f = follows i hi ni u in
          record {
            not_empty = omega (arith, f.size_kept, at.not_empty);
            above_tail = omega (arith, f.placed, at.above_tail, hole.above_tail);
            below_end = omega (arith, f.placed, f.size_kept, at.below_end, hole.below_end);
          }

      apart_at :
          (i j : ℕ)
          → i < b.n_items
          → j < b.n_items
          → idx ≢ i
          → idx ≢ j
          → available closed i ≡ 0
          → available closed j ≡ 0
          → i ≢ j
          → (offset closed i + size closed i ≤ offset closed j)
            ⊎ (offset closed j + size closed j ≤ offset closed i)
      apart_at i j hi hj ni nj ui uj ne =
          let u = sym (vacant_other i hi ni) ∙ ui in
          let w = sym (vacant_other j hj nj) ∙ uj in
          let f = follows i hi ni u in
          let g = follows j hj nj w in
          omega (arith, f.placed, g.placed, f.size_kept, g.size_kept, v.apart i j hi hj u w ne)
