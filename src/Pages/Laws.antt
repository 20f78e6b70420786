-- ===== src/Pages/Laws.antt =====
-- What the modules above src/buffer_pool.c may rely on, whichever pages they stand on.
use my_jql.Prelude.{ℕ, suc, ◌*◌, ◌<◌, ◌≡◌, some, List, ◌∷◌, length, update}
use my_jql.FileIo.{page_size}
use my_jql.BufferPool.{cache_page}
use my_jql.BufferPool.Valid.{page_addr}
use my_jql.Pages.{Pages}
use my_jql.Pages.Held.{count, remove}

-- `Shows content size held budget s`: in `s` the file has `size` bytes and these contents, the client
-- holds the pages `held`, and it may make `budget` accesses more before a counter could wrap.
pub record HasPages {S P : Type 0} (pages : Pages S P) : Type 1 where
  pub Shows : (ℕ → P) → ℕ → List ℕ → ℕ → S → Type 0
  pub waste :
      (content : ℕ → P) (size : ℕ) (held : List ℕ) (budget : ℕ) (s : S)
      → Shows content size held (suc budget) s
      → Shows content size held budget s
  pub get :
      (content : ℕ → P) (size : ℕ) (held : List ℕ) (budget : ℕ) (s : S) (n : ℕ)
      → n * page_size < size
      → length held < cache_page
      → Shows content size held (suc budget) s
      → (s' : S) × (pages.get_page (page_addr n) s ≡ some (tt, s'))
        × Shows content size (n ∷ held) budget s'
  pub load :
      (content : ℕ → P) (size : ℕ) (held : List ℕ) (budget : ℕ) (s : S) (n : ℕ)
      → 0 < count n held
      → n * page_size < size
      → Shows content size held (suc budget) s
      → (s' : S) × (pages.load (page_addr n) s ≡ some (content n, s'))
        × Shows content size held budget s'
  pub store :
      (content : ℕ → P) (size : ℕ) (held : List ℕ) (budget : ℕ) (s : S) (n : ℕ) (page : P)
      → 0 < count n held
      → n * page_size < size
      → Shows content size held (suc budget) s
      → (s' : S) × (pages.store (page_addr n) page s ≡ some (tt, s'))
        × Shows (update content n page) size held budget s'
  pub release :
      (content : ℕ → P) (size : ℕ) (held : List ℕ) (budget : ℕ) (s : S) (n : ℕ)
      → 0 < count n held
      → Shows content size held (suc budget) s
      → (s' : S) × (pages.release (page_addr n) s ≡ some (tt, s'))
        × Shows content size (remove n held) budget s'
