-- ===== src/Pages/Tests.antt =====
-- A client of src/buffer_pool.c on a file of two pages.
use my_jql.Prelude.{
  ℕ, ◌+◌, ◌*◌, ◌≤◌, ◌<◌, ◌≡◌, refl, true, Option, none, some, List, [], ◌∷◌, arith,
}
use my_jql.FileIo.{page_size, FileInfo, File, open_file}
use my_jql.BufferPool.{BufferPool, init_buffer_pool, close_buffer_pool}
use my_jql.Pages.{Flat, pool_pages, flat_pages, flat_get, flat_load, flat_store}
use my_jql.Pages.Client.{Access, fetch, read, write, leave, run}
use my_jql.Pages.Session.{pool_pages-flat_pages}

abbrev two_pages : File ℕ
two_pages = record { content = λ m. 40 + m; size = 256; position = 0; working = true }

-- A page is added behind the end and written, page 1 is read, and the new page again.
abbrev accesses : List (Access ℕ)
accesses = fetch 2 ∷ write 2 77 ∷ leave 2 ∷ fetch 1 ∷ read 1 ∷ fetch 2 ∷ leave 1 ∷ read 2 ∷ []

abbrev unopened : FileInfo ℕ
unopened = record { fp = two_pages; length = 0 }

pool_pages-flat_pages_example :
    let opened = init_buffer_pool (open_file unopened (some two_pages) none).1 (λ _. 0) in
    (pool' : BufferPool ℕ) × (flat' : Flat ℕ) × (seen : List ℕ) × (run
        (pool_pages 0)
        accesses
        opened
      ≡ some (seen, pool'))
    × (run (flat_pages 0) accesses (record { page = two_pages.content; length = 256 })
        ≡ some (seen, flat'))
    × ((m : ℕ)
        → m * page_size < flat'.length
        → ((close_buffer_pool 0 pool').fp.content m ≡ flat'.page m)
          × (m * page_size + page_size ≤ (close_buffer_pool 0 pool').fp.size))
pool_pages-flat_pages_example =
    pool_pages-flat_pages 0 unopened two_pages none (λ _. 0) accesses refl refl
      (
        (omega arith, omega arith),
        (
          omega arith,
          (
            omega arith,
            (
              (omega arith, omega arith),
              (omega arith, ((omega arith, omega arith), (omega arith, (omega arith, tt)))),
            ),
          ),
        ),
      )
      (omega arith)

-- What the client sees.
abbrev flat_file : Flat ℕ
flat_file = record { page = two_pages.content; length = 256 }

abbrev seen_in : (o : Option (List ℕ × Flat ℕ)) → List ℕ
seen_in none = []
seen_in (some (seen, flat)) = seen

accesses-seen : seen_in (run (flat_pages 0) accesses flat_file) ≡ 41 ∷ 77 ∷ []
unfolding flat_pages flat_get flat_load flat_store
accesses-seen = refl
