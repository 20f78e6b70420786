-- ===== src/Pages/Client.antt =====
-- What a client of src/buffer_pool.c does with the pages of a file, one access after another.
use my_jql.Prelude.{ℕ, ◌+◌, ◌*◌, ◌≤◌, ◌<◌, max, List, [], ◌∷◌, ◌++◌, length}
use my_jql.FileIo.{page_size}
use my_jql.Exec.{Exec, pure, ◌>>=◌, ◌>>◌}
use my_jql.BufferPool.{cache_page}
use my_jql.BufferPool.Valid.{page_addr}
use my_jql.Pages.{Pages}
use my_jql.Pages.Held.{count, remove}

-- A call of `get_page`, a read or a write through the pointer to a page, or a call of `release`.
pub data Access (P : Type 0) : Type 0 where
  fetch : (n : ℕ) → Access P
  read : (n : ℕ) → Access P
  write : (n : ℕ) (page : P) → Access P
  leave : (n : ℕ) → Access P

module _ {S P : Type 0} (pages : Pages S P) where
  -- The access, and the pages that the client sees by it.
  abbrev pub perform : Access P → Exec S (List P)
  perform (fetch n) = do pages.get_page (page_addr n); pure []
  perform (read n) = do page ← pages.load (page_addr n); pure (page ∷ [])
  perform (write n page) = do pages.store (page_addr n) page; pure []
  perform (leave n) = do pages.release (page_addr n); pure []

  abbrev pub run : List (Access P) → Exec S (List P)
  run [] = pure []
  run (a ∷ rest) = do seen ← perform a; more ← run rest; pure (seen ++ more)

module _ {P : Type 0} where
  abbrev pub length_after : ℕ → Access P → ℕ
  length_after size (fetch n) = max size (n * page_size + page_size)
  length_after size (read n) = size
  length_after size (write n page) = size
  length_after size (leave n) = size

  abbrev pub held_after : List ℕ → Access P → List ℕ
  held_after held (fetch n) = n ∷ held
  held_after held (read n) = held
  held_after held (write n page) = held
  held_after held (leave n) = remove n held

  -- A page that is asked for is in the file or just behind it, and there is a frame for it; only a
  -- page that is held is read, written or released.
  abbrev pub IsAllowed : ℕ → List ℕ → Access P → Type 0
  IsAllowed size held (fetch n) = (n * page_size ≤ size) × (length held < cache_page)
  IsAllowed size held (read n) = 0 < count n held
  IsAllowed size held (write n page) = 0 < count n held
  IsAllowed size held (leave n) = 0 < count n held

  -- Each access is allowed, in a file of this size, while these pages are held.
  abbrev pub IsDisciplined : ℕ → List ℕ → List (Access P) → Type 0
  IsDisciplined size held [] = Unit
  IsDisciplined size held (a ∷ rest) =
      IsAllowed size held a × IsDisciplined (length_after size a) (held_after held a) rest
