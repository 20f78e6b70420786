-- ===== src/BufferPool/Tests.antt =====
-- The operations of src/buffer_pool.c on a small pool, and the theorems there.
use my_jql.Prelude.{
  ℕ, ◌+◌, ◌*◌, ◌≤◌, ◌<◌, ◌≡◌, refl, inr, none, some, true, false, arith, if◌then◌else◌, ◌==◌, ◌-◌,
}
use native.Mathlib.Decide.{ℕ_discrete}
use my_jql.FileIo.{page_size, FileInfo, open_file, write_page, file_io_success}
use my_jql.BufferPool.{
  BufferPool, init_buffer_pool, get_page, choose, changeable, install, close_buffer_pool,
}
use my_jql.BufferPool.Find.{choose-least}
use my_jql.BufferPool.Valid.{page_addr, IsValid, view, empty, loaded}
use my_jql.BufferPool.Install.{Fetched}
use my_jql.BufferPool.Init.{init_buffer_pool-IsValid}
use my_jql.BufferPool.GetPage.{get_page-Fetched}
use my_jql.BufferPool.Close.{close_buffer_pool-view}
use my_jql.BufferPool.WriteBack.{Stored, write_page-Stored}

-- Pages are numbers: a file of two pages, 40 and 41.
abbrev two_pages : FileInfo ℕ
two_pages = record {
  fp = record { content = λ m. 40 + m; size = 256; position = 0; working = true };
  length = 256;
}

abbrev pool : BufferPool ℕ
pool = init_buffer_pool two_pages (λ _. 0)

pool-IsValid : IsValid pool
unfolding init_buffer_pool
pool-IsValid = record {
  works = refl;
  whole_pages = refl;
  whole_size = refl;
  size_le = omega arith;
  frame = λ k lt. empty refl refl;
  distinct = λ j k a hj hk e. absurd (ground arith);
  backed = λ n below behind. absurd (omega arith);
}

-- Page 2 is behind the end of the file.
get_page-Fetched_example :
    (pool' : BufferPool ℕ) × (k : ℕ) × (get_page 0 pool (page_addr 2) ≡ some (pool', k))
    × Fetched 0 pool 2 pool' k
unfolding init_buffer_pool
get_page-Fetched_example =
    get_page-Fetched 0 pool pool-IsValid 2 (omega arith) (λ k lt e. absurd (ground arith))
      (inr (0, omega arith, refl))

abbrev one_loaded : BufferPool ℕ
one_loaded = install pool two_pages 0 (page_addr 1) 41

one_loaded-IsValid : IsValid one_loaded
unfolding init_buffer_pool install
one_loaded-IsValid = record {
  works = refl;
  whole_pages = refl;
  whole_size = refl;
  size_le = omega arith;
  frame = λ k lt. elim (ℕ_discrete k 0) [
    | yes e ↦ rw e (loaded 1 refl (omega arith) (omega arith))
    | no ne ↦ let off : (k == 0) ≡ false = ground arith in rw (off) (empty refl refl)
  ];
  distinct = λ j k a hj hk e e'. ground arith;
  backed = λ n below behind. absurd (omega arith);
}

close_buffer_pool-view_example :
    ((close_buffer_pool 0 one_loaded).fp.content 1 ≡ view one_loaded 1)
    × (1 * page_size + page_size ≤ (close_buffer_pool 0 one_loaded).fp.size)
    × ((close_buffer_pool 0 one_loaded).fp.working ≡ false)
unfolding install init_buffer_pool
close_buffer_pool-view_example =
    close_buffer_pool-view 0 one_loaded one_loaded-IsValid 1 (omega arith)

write_page-Stored_example :
    ((write_page 0 7 two_pages (page_addr 2)).0 ≡ file_io_success)
    × Stored 7 2 two_pages (write_page 0 7 two_pages (page_addr 2)).1
write_page-Stored_example = write_page-Stored 0 7 two_pages 2 refl refl (omega arith)

-- Frames 0 and 2 are held; of the others below 4, frame 3 has the smaller count.
abbrev counts : ℕ → ℕ
counts i = 9 - i

abbrev held : ℕ → ℕ
held i = if i == 0 then 1 else if i == 2 then 1 else 0

chosen : choose counts (changeable held 4 0) ≡ some 3
unfolding choose changeable
chosen = refl

choose-least_example : (3 < 4) × (held 3 ≡ 0) × ((j : ℕ) → j < 4 → held j ≡ 0 → counts 3 ≤ counts j)
choose-least_example = choose-least counts held 4 3 chosen

init_buffer_pool-IsValid_example :
    let (status, file) = open_file two_pages (some two_pages.fp) none in
    let opened = init_buffer_pool file (λ _. 0) in
    (status ≡ file_io_success)
    × IsValid opened
    × (opened.file.length ≡ 256)
    × ((m : ℕ) → view opened m ≡ 40 + m)
init_buffer_pool-IsValid_example =
    init_buffer_pool-IsValid two_pages two_pages.fp none (λ _. 0) refl refl
