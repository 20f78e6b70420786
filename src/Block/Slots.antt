-- ===== src/Block/Slots.antt =====
-- What a block promises its table: a row of slots, of which some are vacant.
use my_jql.Prelude.{
  tabulate, ℕ, suc, ◌≡◌, Option, none, some, List, [], ◌∷◌, ◌==◌, arith, if◌then◌else◌, true, false,
}
use my_jql.Memory.{Memory, read32, bytes_at}
use my_jql.Block.{Block, item_id_at}
use my_jql.Block.Ids.{availability-lt}
use my_jql.Block.Valid.{available, offset, size, slot}

module _ {ℓ} {A : Type ℓ} where
  -- The first vacant slot is filled; if there is none, a slot is added at the end.
  abbrev pub put : List (Option A) → A → List (Option A) × ℕ
  put [] a = (some a ∷ [], 0)
  put (none ∷ s) a = (some a ∷ s, 0)
  put (some x ∷ s) a = (some x ∷ (put s a).0, suc (put s a).1)

  -- A vacant slot at the end is given up.
  abbrev pub trim : List (Option A) → List (Option A)
  trim [] = []
  trim (none ∷ []) = []
  trim (some x ∷ []) = some x ∷ []
  trim (x ∷ y ∷ s) = x ∷ trim (y ∷ s)

  abbrev pub with_slot : (ℕ → Option A) → ℕ → Option A → ℕ → Option A
  with_slot f k a j = if j == k then a else f j

-- The slots that a block stands for, in the order of their ids.
abbrev pub slots : Block → List (Option (List ℕ))
slots b = tabulate (slot b.bytes) 0 b.n_items

pub slot-vacant : (m : Memory) (i : ℕ) → (available m i == 1) ≡ true → slot m i ≡ none
unfolding slot
slot-vacant m i h = ground arith

pub slot-used :
    (m : Memory) (i : ℕ)
    → (available m i == 1) ≡ false
    → slot m i ≡ some (bytes_at m (offset m i) (size m i))
unfolding slot
slot-used m i h = ground (arith, availability-lt (read32 m (item_id_at i)))
