-- ===== src/BufferPool/WriteBack.antt =====
-- The write of a page at its address (src/file_io.c), and the write-back of the frame that
-- `get_page` of src/buffer_pool.c replaces.
use my_jql.Prelude.{
  ℕ, ◌+◌, ◌*◌, ◌%◌, ◌≤◌, ◌<◌, max, ◌≡◌, ◌≢◌, refl, ap, ◌∙◌, sym, none, some, true, false, arith,
  ◌==◌,
}
use my_jql.FileIo.{page_size, FileInfo, file_io_success, write_page, read_page, addr_out_of_range}
use my_jql.BufferPool.{BufferPool, cache_page, unloaded, write_back}
use my_jql.BufferPool.Valid.{page_addr, page_addr-injective, Frame, empty, loaded, IsValid}

-- What a write of `page` at page `n` leaves: the page is on the disk, the pages that were on the
-- disk stay, and the file has grown by no more than that page.
pub record Stored {P : Type 0} (page : P) (n : ℕ) (file file' : FileInfo P) : Type 0 where
  pub works : file'.fp.working ≡ true
  pub length : file'.length ≡ max file.length (n * page_size + page_size)
  pub size : file'.fp.size ≡ max file.fp.size (n * page_size + page_size)
  pub stored : file'.fp.content n ≡ page
  pub kept : (m : ℕ) → m * page_size < file.fp.size → m ≢ n → file'.fp.content m ≡ file.fp.content m

-- On a working stream of whole pages, a write at a page of the file, or just behind its last page,
-- succeeds and stores the page; the other pages of the file stay, and the length and the size of the
-- file grow to hold the page.
pub write_page-Stored :
    {P : Type 0} (zero_page page : P) (file : FileInfo P) (n : ℕ)
    → file.fp.working ≡ true
    → file.length % page_size ≡ 0
    → n * page_size ≤ file.length
    → ((write_page zero_page page file (page_addr n)).0 ≡ file_io_success)
      × Stored page n file (write_page zero_page page file (page_addr n)).1
unfolding write_page
write_page-Stored zero_page page file n works whole h = (
  ground arith,
  record {
    works = ground arith;
    length = ground arith;
    size = ground arith;
    stored = ground arith;
    kept = λ m lt ne. ground arith;
  },
)

module _ {P : Type 0} where
  -- On a working stream, a read of a page that the file holds returns it.
  pub read_page-success :
      (file : FileInfo P) (n : ℕ)
      → file.fp.working ≡ true
      → n * page_size < file.length
      → n * page_size + page_size ≤ file.fp.size
      → read_page file (page_addr n) ≡ (file_io_success, some (file.fp.content n))
  unfolding read_page
  read_page-success file n works lt le = ground arith

  pub read_page_out_of_range :
      (file : FileInfo P) (n : ℕ)
      → file.length ≤ n * page_size
      → read_page file (page_addr n) ≡ (addr_out_of_range, none)
  unfolding read_page
  read_page_out_of_range file n le = ground arith

  -- The file after the write-back of frame `t`: the disk has the frame's page, and every other page
  -- that it had.
  pub record Written (pool : BufferPool P) (t : ℕ) (file : FileInfo P) : Type 0 where
    pub works : file.fp.working ≡ true
    pub length : file.length ≡ pool.file.length
    pub whole : file.fp.size % page_size ≡ 0
    pub grows : pool.file.fp.size ≤ file.fp.size
    pub bounded : file.fp.size ≤ pool.file.length
    pub kept :
        (m : ℕ)
        → m * page_size < pool.file.fp.size
        → pool.addrs t ≢ page_addr m
        → file.fp.content m ≡ pool.file.fp.content m
    pub stored :
        (m : ℕ)
        → pool.addrs t ≡ page_addr m
        → (file.fp.content m ≡ pool.pages t) × (m * page_size + page_size ≤ file.fp.size)

  module _ (zero_page : P) (pool : BufferPool P) (v : IsValid pool) (t : ℕ) where
    written_of_frame :
        Frame pool.file.length (pool.addrs t) (pool.cnt t)
        → Written pool t (write_back zero_page pool t)
    unfolding write_back
    written_of_frame (empty no_addr e) = rw e (record {
      works = v.works;
      length = refl;
      whole = v.whole_size;
      grows = omega arith;
      bounded = v.size_le;
      kept = λ m lt ne. refl;
      stored = λ m e'. cc (no_addr);
    })
    written_of_frame (loaded n at le lt) =
        let s =
          (write_page-Stored zero_page (pool.pages t) pool.file n v.works v.whole_pages
            (omega arith)).1 in
        let ne : (pool.cnt t == unloaded) ≡ false = ground arith in
        rw (ne, at)
          (record {
            works = s.works;
            length = omega (arith, s.length);
            whole = omega (arith, s.size, v.whole_size);
            grows = omega (arith, s.size);
            bounded = omega (arith, s.size, v.size_le);
            kept = λ m lt' away. s.kept m lt' (λ e. away (at ∙ ap page_addr (sym e)));
            stored = λ m e.
                let same : n ≡ m = page_addr-injective n m (sym at ∙ e) in
                rw (← same) (s.stored, omega (arith, s.size));
          })

    pub write_back-Written : t < cache_page → Written pool t (write_back zero_page pool t)
    write_back-Written lt = written_of_frame (v.frame t lt)
