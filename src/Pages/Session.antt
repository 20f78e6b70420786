-- ===== src/Pages/Session.antt =====
-- A whole session with a pool of src/buffer_pool.c: it is opened, used and closed.
use my_jql.Prelude.{
  ℕ, suc, ◌+◌, ◌*◌, ◌%◌, ◌≤◌, ◌<◌, ◌≡◌, refl, ◌∙◌, Option, some, List, [], ◌∷◌, ◌++◌, length, true,
  arith, inl,
}
use mathlib.Core.Path.{subst}
use my_jql.FileIo.{page_size, FileInfo, File, open_file}
use my_jql.BufferPool.{BufferPool, unloaded, init_buffer_pool, close_buffer_pool}
use my_jql.BufferPool.Valid.{IsValid, view}
use my_jql.BufferPool.Init.{init_buffer_pool-IsValid}
use my_jql.BufferPool.Close.{close_buffer_pool-view}
use my_jql.Exec.{bind-some, pure, ◌>>=◌}
use my_jql.Pages.{Pages, Flat, flat_pages, pool_pages}
use my_jql.Pages.Client.{Access, perform, run, held_after, IsDisciplined}
use my_jql.Pages.Stands.{Stands}
use my_jql.Pages.Refine.{access-Simulated}

module _ {P : Type 0} (zero_page : P) where
  -- The client sees the same pages in the pool and in the flat file, and they end alike.
  pub record Agrees (accesses : List (Access P)) (pool : BufferPool P) (flat : Flat P) (t : ℕ)
      : Type 0 where
    pub pool' : BufferPool P
    pub flat' : Flat P
    pub seen : List P
    pub held' : List ℕ
    pub by_pool : run (pool_pages zero_page) accesses pool ≡ some (seen, pool')
    pub by_flat : run (flat_pages zero_page) accesses flat ≡ some (seen, flat')
    pub stands : Stands pool' flat' held' (t + length accesses)

  run_cons :
      {S : Type 0} (pages : Pages S P) (a : Access P) (accesses : List (Access P)) (s s' s'' : S)
      (seen more : List P)
      → perform pages a s ≡ some (seen, s')
      → run pages accesses s' ≡ some (more, s'')
      → run pages (a ∷ accesses) s ≡ some (seen ++ more, s'')
  run_cons pages a accesses s s' s'' seen more e e' =
      bind-some (perform pages a) (λ seen. run pages accesses >>= λ more. pure (seen ++ more)) s s'
        seen e
      ∙ bind-some (run pages accesses) (λ more. pure (seen ++ more)) s' s'' more e'

  ap_time :
      (pool : BufferPool P) (flat : Flat P) (held : List ℕ) (t t' : ℕ)
      → t ≡ t'
      → Stands pool flat held t
      → Stands pool flat held t'
  ap_time pool flat held t t' e s = subst (Stands pool flat held) e s

  -- A pool that stands for a flat file still does so after any disciplined accesses, and they have
  -- shown the client the same pages.
  run-Stands :
      (accesses : List (Access P)) (pool : BufferPool P) (flat : Flat P) (held : List ℕ) (t : ℕ)
      → Stands pool flat held t
      → IsDisciplined flat.length held accesses
      → t + length accesses < unloaded
      → Agrees accesses pool flat t
  run-Stands [] pool flat held t s disciplined later = record {
    pool' = pool;
    flat' = flat;
    seen = [];
    held' = held;
    by_pool = refl;
    by_flat = refl;
    stands = ap_time pool flat held t (t + 0) (omega arith) s;
  }
  run-Stands (a ∷ accesses) pool flat held t s (allowed, disciplined) later =
      let (pool1, flat1, seen, e, e', s1, long) =
        access-Simulated zero_page pool flat held t s a (omega arith) allowed in
      let rest =
        run-Stands accesses pool1 flat1 (held_after held a) (t + 1) s1 (rw long disciplined)
          (omega arith) in
      record {
        pool' = rest.pool';
        flat' = rest.flat';
        seen = seen ++ rest.seen;
        held' = rest.held';
        by_pool =
            run_cons (pool_pages zero_page) a accesses pool pool1 rest.pool' seen rest.seen e
              rest.by_pool;
        by_flat =
            run_cons (flat_pages zero_page) a accesses flat flat1 rest.flat' seen rest.seen e'
              rest.by_flat;
        stands =
            ap_time rest.pool' rest.flat' rest.held' (t + 1 + length accesses)
              (t + suc (length accesses)) (omega arith) rest.stands;
      }

  pub Stands-opened :
      (file : FileInfo P) (memory : ℕ → P) (flat : Flat P)
      → IsValid (init_buffer_pool file memory)
      → (init_buffer_pool file memory).file.length ≡ flat.length
      → ((m : ℕ)
          → m * page_size < flat.length
          → view (init_buffer_pool file memory) m ≡ flat.page m)
      → Stands (init_buffer_pool file memory) flat [] 0
  unfolding init_buffer_pool
  Stands-opened file memory flat valid long same = record {
    valid = valid;
    same_length = long;
    same = same;
    refs = λ k n lt e. absurd (ground arith);
    cached = λ n none_held. absurd (omega arith);
    sum = refl;
    few = λ k lt. inl refl;
    most = omega arith;
  }

  -- A file of whole pages is opened with `open_file` and `init_buffer_pool`, and a client makes fewer
  -- than `2 ^ 64 - 1` disciplined accesses: what it asks for is in the file or just behind it, it
  -- reads, writes and releases only what it holds, and it asks for nothing while it holds eight pages.
  -- Then it sees what it would see in a file that is all in memory, and after `close_buffer_pool` the
  -- disk has the pages of that file.
  pub pool_pages-flat_pages :
      (old : FileInfo P) (fp : File P) (created : Option (File P)) (memory : ℕ → P)
      (accesses : List (Access P))
      → fp.working ≡ true
      → fp.size % page_size ≡ 0
      → IsDisciplined fp.size [] accesses
      → length accesses < unloaded
      → let opened = init_buffer_pool (open_file old (some fp) created).1 memory in
        (pool' : BufferPool P) × (flat' : Flat P) × (seen : List P) × (run
            (pool_pages zero_page)
            accesses
            opened
          ≡ some (seen, pool'))
        × (run (flat_pages zero_page) accesses (record { page = fp.content; length = fp.size })
            ≡ some (seen, flat'))
        × ((m : ℕ)
            → m * page_size < flat'.length
            → ((close_buffer_pool zero_page pool').fp.content m ≡ flat'.page m)
              × (m * page_size + page_size ≤ (close_buffer_pool zero_page pool').fp.size))
  pool_pages-flat_pages old fp created memory accesses works whole disciplined few =
      let (success, valid, long, same) =
        init_buffer_pool-IsValid old fp created memory works whole in
      let opened = init_buffer_pool (open_file old (some fp) created).1 memory in
      let flat : Flat P = record { page = fp.content; length = fp.size } in
      let agrees =
        run-Stands accesses opened flat [] 0
          (Stands-opened (open_file old (some fp) created).1 memory flat valid long λ m _. same m)
          disciplined (omega arith) in
      let s = agrees.stands in
      (
        agrees.pool',
        agrees.flat',
        agrees.seen,
        agrees.by_pool,
        agrees.by_flat,
        λ m below.
            let closed =
              close_buffer_pool-view zero_page agrees.pool' s.valid m
                (omega (arith, s.same_length)) in
            (closed.0 ∙ s.same m below, closed.1),
      )
