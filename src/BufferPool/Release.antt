-- ===== src/BufferPool/Release.antt =====
-- Writes through a pointer, and `release`, of src/buffer_pool.c.
use my_jql.Prelude.{
  ℕ, ◌-◌, ◌^◌, ◌<◌, ◌≡◌, ◌≢◌, refl, ap, ◌∙◌, sym, inl, inr, arith, ◌==◌, if◌then◌else◌,
}
use native.Mathlib.Decide.{ℕ_discrete}
use my_jql.BufferPool.{BufferPool, cache_page, release, write_frame}
use my_jql.BufferPool.Valid.{
  page_addr, page_addr-injective, IsValid, view, view-cached, view-uncached, find-cached,
  Cached-cases,
}

module _ {P : Type 0} (pool : BufferPool P) (v : IsValid pool) (n k : ℕ) (lt : k < cache_page)
    (at : pool.addrs k ≡ page_addr n) where
  -- A write through the pointer to the frame of page `n` keeps the pool valid, and changes page `n`
  -- of the view to what was written, and no other page.
  pub view-write_frame :
      (page : P)
      → IsValid (write_frame pool k page)
        × ((m : ℕ) → view (write_frame pool k page) m ≡ (if m == n then page else view pool m))
  unfolding write_frame
  view-write_frame page = (
    record {
      works = v.works;
      whole_pages = v.whole_pages;
      whole_size = v.whole_size;
      size_le = v.size_le;
      frame = v.frame;
      distinct = v.distinct;
      backed = v.backed;
    },
    λ m. elim (ℕ_discrete m n) [
      | yes e ↦ rw e (view-cached (write_frame pool k page) n k v.distinct lt at ∙ ground arith)
      | no ne ↦ elim (Cached-cases pool m) [
        | inl (j, hj, e) ↦
            let other : j ≢ k = λ p. ne (page_addr-injective m n (sym e ∙ ap pool.addrs p ∙ at)) in
            view-cached (write_frame pool k page) m j v.distinct hj e
            ∙ ground (arith, view-cached pool m j v.distinct hj e)
        | inr absent ↦
            view-uncached (write_frame pool k page) m absent
            ∙ ground (arith, view-uncached pool m absent)
      ]
    ],
  )

  pub release-held :
      0 < pool.ref k
      → pool.ref k < 2 ^ 64
      → IsValid (release pool (page_addr n))
        × ((m : ℕ) → view (release pool (page_addr n)) m ≡ view pool m)
        × ((j : ℕ)
            → (release pool (page_addr n)).ref j ≡ (if j == k then pool.ref k - 1 else pool.ref j))
  unfolding release
  release-held held small =
      rw (find-cached pool n k v.distinct lt at, release)
        (
          record {
            works = v.works;
            whole_pages = v.whole_pages;
            whole_size = v.whole_size;
            size_le = v.size_le;
            frame = v.frame;
            distinct = v.distinct;
            backed = v.backed;
          },
          λ m. refl,
          λ j. ground arith,
        )
