-- ===== src/BufferPool/Close.antt =====
-- `close_buffer_pool` of src/buffer_pool.c.
use my_jql.Prelude.{
  ℕ, zero, suc, ◌+◌, ◌*◌, ◌≤◌, ◌<◌, ◌≡◌, ◌≢◌, refl, ap, ◌∙◌, sym, inl, inr, arith, true, false,
}
use native.Mathlib.Decide.{ℕ_discrete}
use my_jql.FileIo.{page_size, FileInfo, write_page, close_file}
use my_jql.BufferPool.{BufferPool, cache_page, flush, close_buffer_pool}
use my_jql.BufferPool.Valid.{
  page_addr, page_addr-injective, Frame, empty, loaded, IsValid, view, view-cached, view-uncached,
  Cached-cases, on_disk,
}
use my_jql.BufferPool.WriteBack.{write_page-Stored}

module _ {P : Type 0} (zero_page : P) (pool : BufferPool P) (v : IsValid pool) where
  -- The file when frames 0 to `i - 1` have been written out.
  record Flushed (i : ℕ) (file : FileInfo P) : Type 0 where
    works : file.fp.working ≡ true
    length : file.length ≡ pool.file.length
    grows : pool.file.fp.size ≤ file.fp.size
    kept :
        (m : ℕ)
        → m * page_size < pool.file.fp.size
        → ((j : ℕ) → j < i → pool.addrs j ≢ page_addr m)
        → file.fp.content m ≡ pool.file.fp.content m
    stored :
        (m j : ℕ)
        → j < i
        → pool.addrs j ≡ page_addr m
        → (file.fp.content m ≡ pool.pages j) × (m * page_size + page_size ≤ file.fp.size)

  Flushed-step :
      (i : ℕ) (file : FileInfo P)
      → i < cache_page
      → Frame pool.file.length (pool.addrs i) (pool.cnt i)
      → Flushed i file
      → Flushed (i + 1) (write_page zero_page (pool.pages i) file (pool.addrs i)).1
  Flushed-step i file hi (empty at c) f =
      let same : (write_page zero_page (pool.pages i) file (pool.addrs i)).1 ≡ file =
        rw at (unfold write_page in refl) in
      rw same (record {
        works = f.works;
        length = f.length;
        grows = f.grows;
        kept = λ m lt absent. f.kept m lt λ j hj. absent j (omega arith);
        stored = λ m j hj e. elim (ℕ_discrete j i) [
          | yes p ↦ cc (at, e, ap pool.addrs p)
          | no np ↦ f.stored m j (omega arith) e
        ];
      })
  Flushed-step i file hi (loaded n at le few) f =
      let s =
        (write_page-Stored zero_page (pool.pages i) file n f.works
          (omega (arith, f.length, v.whole_pages)) (omega (arith, f.length))).1 in
      rw at (record {
        works = s.works;
        length = omega (arith, s.length, f.length);
        grows = omega (arith, s.size, f.grows);
        kept = λ m lt absent.
            s.kept m (omega (arith, f.grows))
              (λ e. absent i (omega arith) (at ∙ ap page_addr (sym e)))
            ∙ f.kept m lt λ j hj. absent j (omega arith);
        stored = λ m j hj e. elim (ℕ_discrete j i) [
          | yes p ↦
              let same : n ≡ m = page_addr-injective n m (sym at ∙ ap pool.addrs (sym p) ∙ e) in
              rw (← same, p) (s.stored, omega (arith, s.size))
          | no np ↦
              let old = f.stored m j (omega arith) e in
              let ne : m ≢ n =
                λ q. np (v.distinct j i (n * page_size) (omega arith) hi (e ∙ ap page_addr q) at) in
              (s.kept m (omega (arith, old.1)) ne ∙ old.0, omega (arith, s.size, old.1))
        ];
      })

  -- The loop meets each frame as it was before the loop.
  flush-Flushed :
      (rounds i : ℕ) (p : BufferPool P)
      → i + rounds ≡ cache_page
      → ((j : ℕ) → i ≤ j → (p.addrs j ≡ pool.addrs j) × (p.pages j ≡ pool.pages j))
      → Flushed i p.file
      → Flushed cache_page (flush zero_page p rounds i).file
  unfolding flush
  flush-Flushed zero i p e same f = let e' : i ≡ cache_page = omega arith in rw (← e') f
  flush-Flushed (suc rounds) i p e same f =
      let here = same i (omega arith) in
      flush-Flushed rounds (i + 1) _ (omega arith)
        (λ j le. let there = same j (omega arith) in (ground (arith, there.0), there.1))
        (rw (here.0, here.1) (Flushed-step i p.file (omega arith) (v.frame i (omega arith)) f))

  -- When `close_buffer_pool` of a valid pool has returned, every page below the pool's length is on
  -- the disk with the content that clients saw, and the stream is closed.
  pub close_buffer_pool-view :
      (m : ℕ)
      → m * page_size < pool.file.length
      → ((close_buffer_pool zero_page pool).fp.content m ≡ view pool m)
        × (m * page_size + page_size ≤ (close_buffer_pool zero_page pool).fp.size)
        × ((close_buffer_pool zero_page pool).fp.working ≡ false)
  unfolding close_buffer_pool close_file
  close_buffer_pool-view m below = elim (Cached-cases pool m) [
    | inl (k, hk, at) ↦
        let s = end.stored m k hk at in
        (s.0 ∙ sym (view-cached pool m k v.distinct hk at), s.1, refl)
    | inr absent ↦
        let disk = on_disk pool v m below absent in
        (
          end.kept m disk absent ∙ sym (view-uncached pool m absent),
          omega (arith, end.grows, v.whole_size),
          refl,
        )
  ]
    where
      end : Flushed cache_page (flush zero_page pool cache_page 0).file
      end =
          flush-Flushed cache_page 0 pool (omega arith) (λ j le. (refl, refl))
            (record {
              works = v.works;
              length = refl;
              grows = omega arith;
              kept = λ m lt absent. refl;
              stored = λ m j hj e. absurd (omega arith);
            })
