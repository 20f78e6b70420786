-- ===== src/Block/NewItem.antt =====
-- `new_item` of src/block.c fills the first vacant slot, or adds one.
use my_jql.Prelude.{
  tabulate, tabulate_ext, tabulate-suc, ℕ, zero, suc, ◌+◌, ◌-◌, ◌≤◌, ◌<◌, ◌≡◌, refl, ap, ◌∙◌, inl,
  inr, List, [], ◌∷◌, ◌++◌, Option, none, some, arith, length, take, Bool-cases, Option-cases, ◌==◌,
}
use my_jql.Block.{Block, item_id_at, first_available, fill_item, append_item, new_item, add16}
use native.Mathlib.Decide.{ℕ_discrete}
use native.Mathlib.Numerals.{add-one}
use mathlib.Core.Path.{ap₂}
use my_jql.Block.Valid.{available, IsValid, slot}
use my_jql.Block.Slots.{put, with_slot, slots, slot-vacant, slot-used}
use my_jql.Block.Insert.{slot-fill_item_self, slot-fill_item_ne, tail_ptr-fill_item, IsValid-filled}

module _ (b : Block) (a : List ℕ) where
  -- The search stops at the first vacant slot, the one that `put` fills.
  pub first_available-some :
      (rounds i k : ℕ)
      → first_available b rounds i ≡ some k
      → (i ≤ k)
        × (k < i + rounds)
        × (available b.bytes k ≡ 1)
        × (put (tabulate (slot b.bytes) i rounds) a
            ≡ (tabulate (with_slot (slot b.bytes) k (some a)) i rounds, k - i))
  unfolding first_available
  first_available-some zero i k e = cc
  first_available-some (suc rounds) i k e = elim (Bool-cases (available b.bytes i == 1)) [
    | inl free ↦
        let e' : i ≡ k = ground arith in
        let same : tabulate (slot b.bytes) (i + 1) rounds
            ≡ tabulate (with_slot (slot b.bytes) k (some a)) (i + 1) rounds =
          tabulate_ext _ _ (i + 1) rounds (λ j lo hi. ground arith) in
        rw (slot-vacant b.bytes i free) (omega arith, omega arith, ground arith, ground arith)
    | inr used ↦
        let r = first_available-some rounds (i + 1) k (ground arith) in
        rw (slot-used b.bytes i used)
          (omega (arith, r.0), omega (arith, r.1), r.2, ground (arith, r.3, r.0))
  ]

  pub first_available-none :
      (rounds i : ℕ)
      → first_available b rounds i ≡ none
      → put (tabulate (slot b.bytes) i rounds) a
        ≡ (tabulate (slot b.bytes) i rounds ++ (some a ∷ []), rounds)
  unfolding first_available
  first_available-none zero i e = refl
  first_available-none (suc rounds) i e = elim (Bool-cases (available b.bytes i == 1)) [
    | inl free ↦ absurd (ground arith)
    | inr used ↦ rw (slot-used b.bytes i used) (ground (arith, first_available-none rounds (i + 1)))
  ]

module _ (b : Block) (item : List ℕ) (n : ℕ) (v : IsValid b) (given : n ≤ length item)
    (positive : 0 < n) (space : b.head_ptr + 4 + n ≤ b.tail_ptr) where
  append_fields : (add16 b.n_items 1 ≡ b.n_items + 1) × (add16 b.head_ptr 4 ≡ b.head_ptr + 4)
  append_fields = omega (arith, v.header, v.in_page)

  record Put (b' : Block) (i : ℕ) : Type 0 where
    pub valid : IsValid b'
    pub tail : b'.tail_ptr ≡ b.tail_ptr - n
    pub same : (slots b', i) ≡ put (slots b) (take n item)

  header-fill_item :
      (k : ℕ)
      → ((fill_item b k item n).n_items ≡ b.n_items)
        × ((fill_item b k item n).head_ptr ≡ b.head_ptr)
  unfolding fill_item
  header-fill_item k = (refl, refl)

  filled-Put : (k : ℕ) → first_available b b.n_items 0 ≡ some k → Put (fill_item b k item n) k
  filled-Put k e =
      let f = first_available-some b (take n item) b.n_items 0 k e in
      let h = header-fill_item k in
      let fits : item_id_at k + 4 + n ≤ b.tail_ptr = omega (arith, f.1, v.header) in
      let fits_ids : b.head_ptr + n ≤ b.tail_ptr = omega arith in
      let tail = tail_ptr-fill_item b k item n v given positive fits fits_ids in
      record {
        valid =
            IsValid-filled b k item n v given positive fits fits_ids (fill_item b k item n) refl
              tail (omega (arith, h.0, h.1, v.header)) (omega (arith, h.1))
              λ i hi ne. omega (arith, h.0);
        tail = tail;
        same =
            rw (f.3, h.0)
              (ap₂ pair
                (tabulate_ext _ _ 0 b.n_items λ j lo hi. elim (ℕ_discrete k j) [
                  | yes p ↦
                      rw (← p) (
                        slot-fill_item_self b k item n v given positive fits fits_ids
                        ∙ ground arith)
                  | no ne ↦
                      slot-fill_item_ne b k item n v given positive fits fits_ids j (omega arith) ne
                      ∙ ground arith
                ])
                (omega arith));
      }
    where
      pair : List (Option (List ℕ)) → ℕ → List (Option (List ℕ)) × ℕ
      pair s i = (s, i)

  appended-Put : first_available b b.n_items 0 ≡ none → Put (append_item b item n) b.n_items
  unfolding append_item
  appended-Put e =
      let k = b.n_items in
      let h = header-fill_item k in
      let fits : item_id_at k + 4 + n ≤ b.tail_ptr = omega (arith, v.header) in
      let fits_ids : b.head_ptr + n ≤ b.tail_ptr = omega arith in
      let tail = tail_ptr-fill_item b k item n v given positive fits fits_ids in
      record {
        valid =
            IsValid-filled b k item n v given positive fits fits_ids (append_item b item n) refl
              tail (omega (arith, append_fields, v.header)) (omega (arith, append_fields))
              λ i hi ne. omega (arith, append_fields);
        tail = tail;
        same =
            rw (first_available-none b (take n item) k 0 e, append_fields.0, add-one)
              (ap (λ s. (s, k))
                (tabulate-suc _ 0 k
                  ∙ ap₂ (λ s a. s ++ (a ∷ []))
                      (tabulate_ext _ _ 0 k λ j lo hi.
                        slot-fill_item_ne b k item n v given positive fits fits_ids j (omega arith)
                          (omega arith))
                      (ap (slot (fill_item b k item n).bytes) (the_sum k)
                        ∙ slot-fill_item_self b k item n v given positive fits fits_ids)));
      }
    where
      the_sum : (k : ℕ) → 0 + k ≡ k
      the_sum k = omega arith

-- A block with room for the item and one more id, given an item of at least `n` bytes, `n > 0`:
-- `new_item` returns the first vacant slot, or the slot behind the last, fills it with the item's
-- first `n` bytes, changes no other slot, moves `tail_ptr` down by `n`, and keeps the block valid.
pub new_item-put :
    (b : Block) (item : List ℕ) (n : ℕ)
    → IsValid b
    → n ≤ length item
    → 0 < n
    → b.head_ptr + 4 + n ≤ b.tail_ptr
    → let (b', i) = new_item b item n in
      IsValid b' × (b'.tail_ptr ≡ b.tail_ptr - n) × ((slots b', i) ≡ put (slots b) (take n item))
unfolding new_item
new_item-put b item n v given positive space = elim (Option-cases (first_available b b.n_items 0)) [
  | inl e ↦
      let p = appended-Put b item n v given positive space e in
      rw (e, new_item) (p.valid, p.tail, p.same)
  | inr (k, e) ↦
      let p = filled-Put b item n v given positive space k e in
      rw (e, new_item) (p.valid, p.tail, p.same)
]
