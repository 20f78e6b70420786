-- ===== src/BufferPool/Init.antt =====
-- `open_file` of src/file_io.c and `init_buffer_pool` of src/buffer_pool.c.
use my_jql.Prelude.{ℕ, ◌%◌, ◌≡◌, refl, true, Option, some, arith}
use my_jql.FileIo.{page_size, File, FileInfo, file_io_success, open_file, measure_file}
use my_jql.BufferPool.{init_buffer_pool}
use my_jql.BufferPool.Valid.{IsValid, empty, view, view-uncached}

module _ {P : Type 0} (old : FileInfo P) (fp : File P) (created : Option (File P))
    (memory : ℕ → P) where
  open_file-success :
      fp.working ≡ true
      → fp.size % page_size ≡ 0
      → open_file old (some fp) created ≡ (file_io_success, record { fp = fp; length = fp.size })
  unfolding open_file measure_file
  open_file-success works whole = ground (arith, works, whole)

  -- A stream of whole pages that works is opened, and a pool is made of it: the opening succeeds, the
  -- pool is valid and as long as the file, and clients see the pages of the file.
  pub init_buffer_pool-IsValid :
      fp.working ≡ true
      → fp.size % page_size ≡ 0
      → let (status, file) = open_file old (some fp) created in
        let pool = init_buffer_pool file memory in
        (status ≡ file_io_success)
        × IsValid pool
        × (pool.file.length ≡ fp.size)
        × ((m : ℕ) → view pool m ≡ fp.content m)
  unfolding init_buffer_pool
  init_buffer_pool-IsValid works whole = rw (open_file-success works whole) (
    refl,
    record {
      works = works;
      whole_pages = whole;
      whole_size = whole;
      size_le = omega arith;
      frame = λ k lt. empty refl refl;
      distinct = λ j k a hj hk e. absurd (ground arith);
      backed = λ n below behind. absurd (omega arith);
    },
    refl,
    λ m.
        view-uncached (init_buffer_pool (record { fp = fp; length = fp.size }) memory) m
          (λ k lt e. absurd (ground arith)),
  )
