-- ===== src/BufferPool.antt =====
-- src/buffer_pool.c: eight page frames over a file of pages.
-- A pointer that `get_page` returns is the index of a frame.
pub mod Find
pub mod Valid
pub mod WriteBack
pub mod Install
pub mod GetPage
pub mod Release
pub mod Close
pub mod Init
mod Tests
use my_jql.Prelude.{
  ℕ, zero, suc, ◌+◌, ◌-◌, ◌^◌, ◌%◌, ◌<◌, ◌≡◌, ℤ, pos, negsuc, minus_one, ◌=ℤ◌, Option, none, some,
  List, [], ◌∷◌, ◌==◌, ltb, if◌then◌else◌, update,
}
use my_jql.FileIo.{
  FileInfo, File, FileIoResult, file_io_success, addr_out_of_range, page_size, read_page,
  write_page, close_file, open_file,
}

abbrev pub cache_page : ℕ
cache_page = 8

-- `(size_t)-1`, the `cnt` of a frame that has not been loaded.
abbrev pub unloaded : ℕ
unloaded = 2 ^ 64 - 1

abbrev pub inc64 : ℕ → ℕ
inc64 n = (n + 1) % 2 ^ 64

abbrev pub dec64 : ℕ → ℕ
dec64 n = (n + unloaded) % 2 ^ 64

-- The four arrays are functions of the frame's index, of which 0 to 7 are used.
pub record BufferPool (P : Type 0) : Type 0 where
  pub file : FileInfo P
  pub pages : ℕ → P
  pub addrs : ℕ → ℤ
  pub cnt : ℕ → ℕ
  pub ref : ℕ → ℕ

-- The first frame among the `rounds` from `k` on that holds `addr`.
unfoldable pub find_frame : (ℕ → ℤ) → ℤ → (rounds k : ℕ) → Option ℕ
find_frame addrs addr zero k = none
find_frame addrs addr (suc rounds) k =
    let rest = find_frame addrs addr rounds (k + 1) in if addrs k =ℤ addr then some k else rest

-- The indices that `changeable_page` is filled with: the frames that nobody holds.
unfoldable pub changeable : (ℕ → ℕ) → (rounds i : ℕ) → List ℕ
changeable ref zero i = []
changeable ref (suc rounds) i =
    let rest = changeable ref rounds (i + 1) in if ref i == 0 then i ∷ rest else rest

-- The loop over the rest of `changeable_page`: the first index with the least count.
unfoldable pub least_used : (ℕ → ℕ) → ℕ → List ℕ → ℕ
least_used cnt target [] = target
least_used cnt target (i ∷ rest) =
    least_used cnt (if ltb (cnt i) (cnt target) then i else target) rest

-- The frame to replace. With no changeable frame the loop of `get_page` runs past its array:
-- `none` stands for that undefined behaviour.
unfoldable pub choose : (ℕ → ℕ) → List ℕ → Option ℕ
unfolding least_used
choose cnt [] = none
choose cnt (i ∷ rest) = some (least_used cnt i rest)

-- The counts after a miss: every loaded frame restarts at 0, and frame `target` at 1.
unfoldable pub reset_counts : (ℕ → ℕ) → ℕ → ℕ → ℕ
reset_counts cnt target = update (λ i. if cnt i == unloaded then unloaded else 0) target 1

module _ {P : Type 0} where
  abbrev pub find : BufferPool P → ℤ → Option ℕ
  find pool addr = find_frame pool.addrs addr cache_page 0

  unfoldable pub hit : BufferPool P → ℕ → BufferPool P
  hit pool k = record pool {
    cnt = update pool.cnt k (inc64 (pool.cnt k));
    ref = update pool.ref k (inc64 (pool.ref k));
  }

  unfoldable pub install : BufferPool P → FileInfo P → ℕ → ℤ → P → BufferPool P
  unfolding reset_counts
  install pool file target addr page = record {
    file = file;
    pages = update pool.pages target page;
    addrs = update pool.addrs target addr;
    cnt = reset_counts pool.cnt target;
    ref = update pool.ref target 1;
  }

  unfoldable pub release : BufferPool P → ℤ → BufferPool P
  release pool addr = elim (find pool addr) [
    | none ↦ pool
    | some k ↦ record pool { ref = update pool.ref k (dec64 (pool.ref k)) }
  ]

  -- A client's write through the pointer to frame `k`.
  unfoldable pub write_frame : BufferPool P → ℕ → P → BufferPool P
  write_frame pool k page = record pool { pages = update pool.pages k page }

  -- `memory` is what the frames hold before the call; `file` is what `open_file` has produced.
  unfoldable pub init_buffer_pool : FileInfo P → (memory : ℕ → P) → BufferPool P
  init_buffer_pool file memory = record {
    file = file;
    pages = memory;
    addrs = λ _. minus_one;
    cnt = λ _. unloaded;
    ref = λ _. 0;
  }

module _ {P : Type 0} (zero_page : P) where
  -- The file after the write-back of frame `target`.
  unfoldable pub write_back : BufferPool P → ℕ → FileInfo P
  write_back pool target =
      if pool.cnt target == unloaded
      then pool.file
      else (write_page zero_page (pool.pages target) pool.file (pool.addrs target)).1

  -- The end of `get_page`: what the read of `addr` into frame `target` returned. `none` stands for
  -- the end of the function without a `return`.
  unfoldable pub load_result :
      BufferPool P → FileInfo P → ℕ → ℤ → FileIoResult × Option P → Option (BufferPool P × ℕ)
  load_result pool file target (pos addr) (addr_out_of_range, _) =
      some (
        install pool (record file { length = addr + page_size }) target (pos addr) zero_page,
        target,
      )
  load_result pool file target addr (file_io_success, some page) =
      some (install pool file target addr page, target)
  load_result pool file target addr _ = none

  unfoldable pub load_page : BufferPool P → ℕ → ℤ → Option (BufferPool P × ℕ)
  load_page pool target addr =
      let file = write_back pool target in load_result pool file target addr (read_page file addr)

  unfoldable pub get_page : BufferPool P → ℤ → Option (BufferPool P × ℕ)
  get_page pool addr = elim (find pool addr) [
    | some k ↦ some (hit pool k, k)
    | none ↦ elim (choose pool.cnt (changeable pool.ref cache_page 0)) [
      | none ↦ none
      | some target ↦ load_page pool target addr
    ]
  ]

  -- The loop of `close_buffer_pool`: every frame is written out, loaded or not.
  unfoldable pub flush : BufferPool P → (rounds i : ℕ) → BufferPool P
  flush pool zero i = pool
  flush pool (suc rounds) i =
      flush
        (record pool {
          file = (write_page zero_page (pool.pages i) pool.file (pool.addrs i)).1;
          addrs = update pool.addrs i (pos 0);
          cnt = update pool.cnt i 0;
          ref = update pool.ref i 0;
        })
        rounds (i + 1)

  -- The stream is closed through a copy of `pool->file`.
  unfoldable pub close_buffer_pool : BufferPool P → FileInfo P
  close_buffer_pool pool = (close_file (flush pool cache_page 0).file).1
