-- ===== src/Block/DeleteItem.antt =====
-- `delete_item` of src/block.c vacates a slot, and gives up a vacant slot at the end.
use my_jql.Prelude.{
  tabulate, tabulate_ext, tabulate-suc, ℕ, zero, suc, ◌+◌, ◌-◌, ◌*◌, ◌<◌, ◌≡◌, refl, sym, ap, ◌∙◌,
  inl, inr, List, [], ◌∷◌, ◌++◌, Option, none, some, arith, Bool-cases, ◌==◌, true, set,
}
use native.Mathlib.Decide.{ℕ_discrete}
use my_jql.Block.{
  Block, get_item_id, get_item_id_availability, close_gap, drop_last, delete_item, sub16,
  data_offset,
}
use my_jql.Block.Valid.{available, size, IsValid, slot}
use my_jql.Block.Slots.{trim, with_slot, slots, slot-vacant, slot-used}
use my_jql.Block.CloseGap.{
  kept_fields, tail_ptr-close_gap, slot-close_gap_self, slot-close_gap_ne, close_gap-IsValid,
}

trim-append_none {ℓ} : {A : Type ℓ} (s : List (Option A)) → trim (s ++ (none ∷ [])) ≡ s
trim-append_none [] = refl
trim-append_none (none ∷ []) = refl
trim-append_none (some x ∷ []) = refl
trim-append_none (none ∷ y ∷ s) = ap (λ t. none ∷ t) (trim-append_none (y ∷ s))
trim-append_none (some x ∷ y ∷ s) = ap (λ t. some x ∷ t) (trim-append_none (y ∷ s))

trim-append_some {ℓ} :
    {A : Type ℓ} (s : List (Option A)) (a : A) → trim (s ++ (some a ∷ [])) ≡ s ++ (some a ∷ [])
trim-append_some [] a = refl
trim-append_some (none ∷ []) a = refl
trim-append_some (some x ∷ []) a = refl
trim-append_some (none ∷ y ∷ s) a = ap (λ t. none ∷ t) (trim-append_some (y ∷ s) a)
trim-append_some (some x ∷ y ∷ s) a = ap (λ t. some x ∷ t) (trim-append_some (y ∷ s) a)

set-tabulate {ℓ} :
    {A : Type ℓ} (f : ℕ → Option A) (a : Option A) (n i k : ℕ)
    → set (tabulate f i n) k a ≡ tabulate (with_slot f (i + k) a) i n
set-tabulate f a zero i k = refl
set-tabulate f a (suc n) i zero =
    ground (arith, tabulate_ext f (with_slot f (i + 0) a) (i + 1) n (λ j lo hi. ground arith))
set-tabulate f a (suc n) i (suc k) =
    let e : i + 1 + k ≡ i + suc k = omega arith in
    ground (arith, set-tabulate f a n (i + 1) k, ap (λ t. tabulate (with_slot f t a) (i + 1) n) e)

module _ (b : Block) (v : IsValid b) (some_id : 0 < b.n_items) where
  abbrev last : ℕ
  last = b.n_items - 1

  slots_split : slots b ≡ tabulate (slot b.bytes) 0 last ++ (slot b.bytes last ∷ [])
  slots_split =
      ap (tabulate (slot b.bytes) 0) {y = suc last} (omega arith)
      ∙ tabulate-suc (slot b.bytes) 0 last
      ∙ ap (λ k. tabulate (slot b.bytes) 0 last ++ (slot b.bytes k ∷ [])) (omega arith)

  sizes : (sub16 b.n_items 1 ≡ last) × (sub16 b.head_ptr 4 ≡ data_offset + 4 * last)
  sizes = omega (arith, v.header, v.room, v.in_page)

  record Dropped (b' : Block) : Type 0 where
    pub valid : IsValid b'
    pub tail : b'.tail_ptr ≡ b.tail_ptr
    pub same : slots b' ≡ trim (slots b)

  drop_last_lem : Dropped (drop_last b)
  unfolding drop_last
  drop_last_lem = elim (Bool-cases (available b.bytes last == 1)) [
    | inl vacant ↦
        let vacant' : (get_item_id_availability (get_item_id b last) == 1) ≡ true = vacant in
        rw (drop_last, vacant')
          (record {
            valid = record {
              header = rw (sizes.0, sizes.1) refl;
              room = rw sizes.1 (omega (arith, v.header, v.room));
              in_page = v.in_page;
              inside = λ i hi. v.inside i (omega (arith, sizes.0));
              apart = λ i j hi hj. v.apart i j (omega (arith, sizes.0)) (omega (arith, sizes.0));
            };
            tail = refl;
            same =
                rw (slots_split, slot-vacant b.bytes last vacant, trim-append_none, sizes.0) refl;
          })
    | inr taken ↦
        rw (drop_last, taken)
          (record {
            valid = v;
            tail = refl;
            same =
                slots_split
                ∙ ap (λ s. tabulate (slot b.bytes) 0 last ++ (s ∷ []))
                    (slot-used b.bytes last taken)
                ∙ sym (trim-append_some (tabulate (slot b.bytes) 0 last) _)
                ∙ ap (λ s. trim (tabulate (slot b.bytes) 0 last ++ (s ∷ [])))
                    (sym (slot-used b.bytes last taken))
                ∙ ap trim (sym slots_split);
          })
  ]

-- In a valid block, deleting an item whose id is in use: `delete_item` vacates that slot, gives up
-- the last slot if it is vacant then, changes no other slot though their bytes move, moves
-- `tail_ptr` up by the item's size, and keeps the block valid.
pub delete_item-trim :
    (b : Block) (idx : ℕ)
    → IsValid b
    → idx < b.n_items
    → available b.bytes idx ≡ 0
    → let b' = delete_item b idx in
      IsValid b'
      × (b'.tail_ptr ≡ b.tail_ptr + size b.bytes idx)
      × (slots b' ≡ trim (set (slots b) idx none))
unfolding delete_item
delete_item-trim b idx v known used =
    let kept = kept_fields b idx in
    let d =
      drop_last_lem (close_gap b idx) (close_gap-IsValid b idx v known used)
        (omega (arith, kept.0)) in
    (d.valid, d.tail ∙ tail_ptr-close_gap b idx v known used, d.same ∙ ap trim vacated)
  where
    vacated : slots (close_gap b idx) ≡ set (slots b) idx none
    vacated =
        rw ((kept_fields b idx).0, set-tabulate (slot b.bytes) none b.n_items 0 idx)
          (tabulate_ext _ _ 0 b.n_items λ j lo hi. elim (ℕ_discrete idx j) [
            | yes e ↦ rw (← e) (slot-close_gap_self b idx v known used ∙ ground arith)
            | no ne ↦ slot-close_gap_ne b idx v known used j (omega arith) ne ∙ ground arith
          ])
