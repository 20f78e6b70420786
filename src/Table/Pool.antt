-- ===== src/Table/Pool.antt =====
-- `table_read` of src/table.c over any pages that follow the laws, the buffer pool's among them.
use my_jql.Prelude.{ℕ, suc, ◌+◌, ◌*◌, ◌^◌, ◌<◌, ◌≡◌, ap, ◌∙◌, some, List, ◌∷◌, length, arith}
use mathlib.Core.Path.{subst}
use my_jql.FileIo.{page_size}
use my_jql.BufferPool.{cache_page}
use my_jql.BufferPool.Valid.{page_addr}
use my_jql.Exec.{◌>>=◌, ◌>>◌, pure, bind-some}
use my_jql.Block.{Block, get_item, get_item_id, get_item_id_size}
use my_jql.Block.Slots.{slots}
use my_jql.Block.GetItem.{slot_at}
use my_jql.HashMap.{Words, nat}
use my_jql.Pages.{Pages}
use my_jql.Pages.Held.{count, remove-cons_self, count-cons_self}
use my_jql.Pages.Laws.{HasPages}
use my_jql.Table.{Rid, read_item, table_read}
use my_jql.Table.Read.{read_item-slot_at}

-- The pages of a table show the contents `content`, and a client holds fewer than eight of them. The
-- block with the number `n` is in the file, has less than 2 ^ 15 slots and has the item at the index
-- of `rid`. Then `table_read` of that id in that block returns the bytes of the item, and the pages
-- show the same contents and are held as before.
pub table_read-slot_at :
    {S : Type 0} (data_pool : Pages S Block) (fsm_pool : Pages S Words) (laws : HasPages data_pool)
    (content : ℕ → Block) (size : ℕ) (held : List ℕ) (budget n : ℕ) (rid : Rid) (bytes : List ℕ)
    (s : S)
    → rid.block_addr ≡ page_addr n
    → n * page_size < size
    → length held < cache_page
    → (content n).n_items < 2 ^ 15
    → slot_at (slots (content n)) rid.idx ≡ some bytes
    → laws.Shows content size held (3 + budget) s
    → (s' : S) × (table_read data_pool fsm_pool rid s ≡ some (bytes, s'))
      × laws.Shows content size held budget s'
unfolding table_read
table_read-slot_at data_pool fsm_pool laws content size held budget n rid bytes s addr below room
      few at shows =
    let three : 3 + budget ≡ suc (suc (suc budget)) = omega arith in
    let (s1, got, shows1) =
      laws.get content size held (suc (suc budget)) s n below room
        (subst (λ b. laws.Shows content size held b s) three shows) in
    let held_once : 0 < count n (n ∷ held) = omega (arith, count-cons_self n held) in
    let (s2, loaded, shows2) =
      laws.load content size (n ∷ held) (suc budget) s1 n held_once below shows1 in
    let (s3, freed, shows3) = laws.release content size (n ∷ held) budget s2 n held_once shows2 in
    let block = content n in
    let item =
      read_item data_pool fsm_pool block (get_item block rid.idx)
        (get_item_id_size (get_item_id block (nat rid.idx))) in
    (
      s3,
      ap
            (λ a.
              (data_pool.get_page a
                  >> (data_pool.load a >>= λ b.
                      read_item data_pool fsm_pool b (get_item b rid.idx)
                        (get_item_id_size (get_item_id b (nat rid.idx)))
                      >>= λ bytes. data_pool.release a >> pure bytes))
                s)
            addr
          ∙ bind-some (data_pool.get_page (page_addr n)) _ s s1 tt got
          ∙ bind-some (data_pool.load (page_addr n)) _ s1 s2 block loaded
          ∙ bind-some item (λ bytes. data_pool.release (page_addr n) >> pure bytes) s2 s2 bytes
              (read_item-slot_at data_pool fsm_pool block rid.idx bytes s2 few at)
          ∙ bind-some (data_pool.release (page_addr n)) (λ _. pure bytes) s2 s3 tt freed,
      subst (λ h. laws.Shows content size h budget s3) (remove-cons_self n held) shows3,
    )
