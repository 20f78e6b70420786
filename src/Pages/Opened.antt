-- ===== src/Pages/Opened.antt =====
-- What clients of src/buffer_pool.c may rely on when a pool has been opened.
use my_jql.Prelude.{ℕ, ◌%◌, ◌<◌, ◌≡◌, refl, true, Option, some, [], arith}
use my_jql.FileIo.{page_size, File, FileInfo, open_file}
use my_jql.BufferPool.{init_buffer_pool, unloaded}
use my_jql.BufferPool.Init.{init_buffer_pool-IsValid}
use my_jql.Pages.{Flat}
use my_jql.Pages.Filled.{pool_pages-HasPages, pool-Shows}
use my_jql.Pages.Session.{Stands-opened}

pub opened-Shows :
    {P : Type 0} (zero_page : P) (old : FileInfo P) (fp : File P) (created : Option (File P))
    (memory : ℕ → P) (budget : ℕ)
    → fp.working ≡ true
    → fp.size % page_size ≡ 0
    → budget < unloaded
    → (pool_pages-HasPages zero_page).Shows fp.content fp.size [] budget
        (init_buffer_pool (open_file old (some fp) created).1 memory)
opened-Shows zero_page old fp created memory budget works whole few =
    let (success, valid, long, same) = init_buffer_pool-IsValid old fp created memory works whole in
    let flat : Flat _ = record { page = fp.content; length = fp.size } in
    pool-Shows zero_page fp.content fp.size [] budget
      (init_buffer_pool (open_file old (some fp) created).1 memory)
      (
        flat,
        0,
        Stands-opened zero_page (open_file old (some fp) created).1 memory flat valid long
            λ m _. same m,
        (refl, λ m below. refl),
        omega arith,
      )
