-- ===== src/Table/Read.antt =====
-- `table_read` of src/table.c over a file in memory, and what src/str.c relies on when it reads.
use my_jql.Prelude.{
  ℕ, ◌*◌, ◌^◌, ◌<◌, ◌≡◌, sym, ap, ◌∙◌, ℤ, pos, negsuc, Option, none, some, List, arith,
}
use mathlib.Core.Option
use mathlib.Core.Path.{subst}
use my_jql.FileIo.{page_size}
use my_jql.Exec.{pure, ◌>>=◌, ◌>>◌, bind-some}
use my_jql.Memory.{bytes_at}
use my_jql.Block.{Block, get_item, get_item_id, get_item_id_size}
use my_jql.Block.Valid.{size}
use my_jql.Block.Slots.{slots}
use my_jql.Block.GetItem.{slot_at, get_item-slot_at}
use my_jql.BufferPool.Valid.{page_addr}
use my_jql.HashMap.{Words, nat}
use my_jql.Pages.{Pages, Flat, flat_pages}
use my_jql.Pages.Part.{part_pages, part_get, part_load, part_release}
use my_jql.Table.{Rid, read_item, table_read, table_items}
use my_jql.Str.Laws.{HasItems}

-- The item stands at its index in the block at its address, in a file in memory.
abbrev pub IsItem : Flat Block → Rid → List ℕ → Type 0
IsItem file rid bytes =
    (n : ℕ) × (rid.block_addr ≡ page_addr n)
    × (n * page_size < file.length)
    × ((file.page n).n_items < 2 ^ 15)
    × (slot_at (slots (file.page n)) rid.idx ≡ some bytes)

module _ {S : Type 0} (data_pool : Pages S Block) (fsm_pool : Pages S Words) where
  -- `memcpy` from the pointer that `get_item` returns.
  pub read_item-slot_at :
      (block : Block) (idx : ℤ) (bytes : List ℕ) (s : S)
      → block.n_items < 2 ^ 15
      → slot_at (slots block) idx ≡ some bytes
      → read_item data_pool fsm_pool block
          (get_item block idx)
          (get_item_id_size (get_item_id block (nat idx)))
          s
        ≡ some (bytes, s)
  read_item-slot_at block (negsuc i) bytes s few at = absurd (ground (arith, at))
  read_item-slot_at block (pos i) bytes s few at =
      result (get_item block (pos i)) (get_item-slot_at block (pos i) few ∙ at)
    where
      result :
          (o : Option ℕ)
          → Option.map (λ at. bytes_at block.bytes at (size block.bytes i)) o ≡ some bytes
          → read_item data_pool fsm_pool block o (get_item_id_size (get_item_id block i)) s
            ≡ some (bytes, s)
      result none e = absurd (ground (arith, e))
      result (some at) e = ap (Option.map λ b. (b, s)) e

module _ {S : Type 0} (zero_page : Block) (part : S → Flat Block) (put : S → Flat Block → S)
    (back : (s : S) → put s (part s) ≡ s) (fsm_pool : Pages S Words) (fuel : ℕ) where
  abbrev pub data_pool : Pages S Block
  data_pool = part_pages part put (flat_pages zero_page)

  pub table_read-IsItem :
      (s : S) (rid : Rid) (bytes : List ℕ)
      → IsItem (part s) rid bytes
      → table_read data_pool fsm_pool rid s ≡ some (bytes, s)
  unfolding table_read
  table_read-IsItem s rid bytes (n, addr, below, few, at) =
      let block = (part s).page n in
      let item =
        read_item data_pool fsm_pool block (get_item block rid.idx)
          (get_item_id_size (get_item_id block (nat rid.idx))) in
      ap
        (λ a.
          (data_pool.get_page a
              >> (data_pool.load a >>= λ b.
                  read_item data_pool fsm_pool b (get_item b rid.idx)
                    (get_item_id_size (get_item_id b (nat rid.idx)))
                  >>= λ bytes. data_pool.release a >> pure bytes))
            s)
        addr
      ∙ bind-some (data_pool.get_page (page_addr n)) _ s s tt
          (part_get zero_page part put back s n below)
      ∙ bind-some (data_pool.load (page_addr n)) _ s s block
          (part_load zero_page part put back s n below)
      ∙ bind-some item (λ bytes. data_pool.release (page_addr n) >> pure bytes) s s bytes
          (read_item-slot_at data_pool fsm_pool block rid.idx bytes s few at)
      ∙ bind-some (data_pool.release (page_addr n)) (λ _. pure bytes) s s tt
          (part_release zero_page part put back s n)

  -- The table of the program over a file in memory follows the law of Str/Laws.
  unfoldable pub table_items-HasItems : HasItems (table_items data_pool fsm_pool fuel)
  unfolding table_items
  table_items-HasItems = record {
    Holds = λ s. IsItem (part s);
    read_holds =
        λ s rid bytes held. (s, table_read-IsItem s rid bytes held, λ r other there. there);
  }

  -- The same law in a single state, which a read leaves as it is.
  unfoldable pub still-HasItems : S → HasItems (table_items data_pool fsm_pool fuel)
  unfolding table_items
  still-HasItems still = record {
    Holds = λ s rid bytes. (s ≡ still) × IsItem (part still) rid bytes;
    read_holds = λ s rid bytes (same, held). (
      s,
      table_read-IsItem s rid bytes (subst (λ s. IsItem (part s) rid bytes) (sym same) held),
      λ r other there. there,
    );
  }
