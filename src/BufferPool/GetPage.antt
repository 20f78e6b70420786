-- ===== src/BufferPool/GetPage.antt =====
-- `get_page` of src/buffer_pool.c.
use my_jql.Prelude.{
  ℕ, ◌+◌, ◌*◌, ◌^◌, ◌≤◌, ◌<◌, ◌≡◌, ◌≢◌, refl, ap, ◌∙◌, sym, ◌⊎◌, inl, inr, some, arith, update,
  lt→ltb, ge→ltb, lt_or_ge,
}
use native.Mathlib.Decide.{ℕ_discrete}
use my_jql.FileIo.{page_size, FileInfo}
use my_jql.BufferPool.{
  BufferPool, cache_page, unloaded, inc64, hit, install, write_back, load_result, load_page,
  get_page,
}
use my_jql.BufferPool.Find.{choose-least, choose_total}
use my_jql.BufferPool.Valid.{
  page_addr, page_addr-injective, Frame, empty, loaded, Cached, IsValid, view-cached, view-uncached,
  find-cached, find-uncached, Cached-cases, on_disk,
}
use my_jql.BufferPool.WriteBack.{
  Written, write_back-Written, read_page-success, read_page_out_of_range,
}
use my_jql.BufferPool.Install.{Few, Fetched, install-Fetched}

module _ {P : Type 0} (zero_page : P) (pool : BufferPool P) (v : IsValid pool) (n : ℕ) where
  -- The 64-bit counters of a frame are not about to wrap.
  abbrev pub HasHeadroom : Type 0
  HasHeadroom =
      (k : ℕ)
      → k < cache_page
      → pool.addrs k ≡ page_addr n
      → (pool.cnt k + 1 < unloaded) × (pool.ref k + 1 < 2 ^ 64)

  module _ (k : ℕ) (lt : k < cache_page) (at : pool.addrs k ≡ page_addr n)
      (room : (pool.cnt k + 1 < unloaded) × (pool.ref k + 1 < 2 ^ 64)) where
    frame_below : n * page_size + page_size ≤ pool.file.length
    frame_below = go (v.frame k lt)
      where
        go :
            Frame pool.file.length (pool.addrs k) (pool.cnt k)
            → n * page_size + page_size ≤ pool.file.length
        go (empty e c) = cc (e, at)
        go (loaded m e le few) =
            let same = page_addr-injective m n (sym e ∙ at) in omega (arith, same)

    Few-later : (b c : ℕ) → Few b c → Few (b + 1) c
    Few-later b c (inl e) = inl e
    Few-later b c (inr le) = inr (omega arith)

    Few-hit :
        (b j : ℕ)
        → j ≡ k
        → Few b (pool.cnt j)
        → Few (b + 1) (update pool.cnt k (inc64 (pool.cnt k)) j)
    Few-hit b j p (inl e) = absurd (omega (arith, room.0, ap pool.cnt p))
    Few-hit b j p (inr le) = inr (ground (arith, room.0, ap pool.cnt p))

    hit-Fetched : Fetched zero_page pool n (hit pool k) k
    unfolding hit
    hit-Fetched = record {
      valid = record {
        works = v.works;
        whole_pages = v.whole_pages;
        whole_size = v.whole_size;
        size_le = v.size_le;
        frame = λ j hj. elim (ℕ_discrete j k) [
          | yes p ↦
              loaded n (ap pool.addrs p ∙ at) frame_below (ground (arith, room.0, ap pool.cnt p))
          | no ne ↦
              let same : update pool.cnt k (inc64 (pool.cnt k)) j ≡ pool.cnt j = ground arith in
              rw same (v.frame j hj)
        ];
        distinct = v.distinct;
        backed = v.backed;
      };
      in_range = lt;
      at = at;
      page =
          rw (lt→ltb (n * page_size) pool.file.length (omega (arith, frame_below)))
            (sym (view-cached pool n k v.distinct lt at));
      length = omega (arith, frame_below);
      same_view = λ m below. refl;
      held = ground (arith, room.1);
      pinned = λ j hj some_held. (refl, refl, ground (arith, room.1));
      counted = λ j hj. ground (arith, room.1);
      others = λ j ne. refl;
      few = λ b j hj f. elim (ℕ_discrete j k) [
        | yes p ↦ Few-hit b j p f
        | no ne ↦
            let same : update pool.cnt k (inc64 (pool.cnt k)) j ≡ pool.cnt j = ground arith in
            rw same (Few-later b (pool.cnt j) f)
      ];
    }

  module _ (absent : (k : ℕ) → k < cache_page → pool.addrs k ≢ page_addr n)
      (near : n * page_size ≤ pool.file.length) (t : ℕ) (lt : t < cache_page)
      (free : pool.ref t ≡ 0) where
    abbrev written : FileInfo P
    written = write_back zero_page pool t

    w : Written pool t written
    w = write_back-Written zero_page pool v t lt

    load-Fetched :
        (pool' : BufferPool P) × (load_page zero_page pool t (page_addr n) ≡ some (pool', t))
        × Fetched zero_page pool n pool' t
    unfolding load_page load_result
    load-Fetched = elim (lt_or_ge (n * page_size) pool.file.length) [
      | inl below ↦
          let disk = on_disk pool v n below absent in
          let read =
            read_page-success written n w.works (omega (arith, w.length))
              (omega (arith, w.grows, w.whole)) in
          let page = written.fp.content n in
          (
            install pool written t (page_addr n) page,
            rw read,
            install-Fetched zero_page pool v n t lt free absent near written written page w refl
                (omega (arith, w.length, v.whole_pages))
                (rw (lt→ltb (n * page_size) pool.file.length below)
                  (w.kept n disk (absent t lt) ∙ sym (view-uncached pool n absent))),
          )
      | inr behind ↦
          let grown : FileInfo P = record written { length = n * page_size + page_size } in
          (
            install pool grown t (page_addr n) zero_page,
            rw (read_page_out_of_range written n (omega (arith, w.length))),
            install-Fetched zero_page pool v n t lt free absent near written grown zero_page w refl
                (omega arith) (rw (ge→ltb (n * page_size) pool.file.length behind) refl),
          )
    ]

  -- Page `n` of a valid pool, or the page just behind its end, is asked for. If the page is cached,
  -- or some frame is held by nobody, and the counters of the page's frame are not about to wrap,
  -- then `get_page` returns a frame that holds the page, or zeros behind the end, and that is held by
  -- somebody; the pool stays valid, every page has the content that clients saw, and a frame that was
  -- held keeps its page, its content and, but for one more at the frame returned, its holders. No
  -- other frame changes its address or its holders, and no count grows by more than one.
  pub get_page-Fetched :
      n * page_size ≤ pool.file.length
      → HasHeadroom
      → Cached pool n ⊎ ((j : ℕ) × (j < cache_page) × (pool.ref j ≡ 0))
      → (pool' : BufferPool P) × (k : ℕ) × (get_page zero_page pool (page_addr n) ≡ some (pool', k))
        × Fetched zero_page pool n pool' k
  unfolding get_page
  get_page-Fetched near room cached_or_free = elim (Cached-cases pool n) [
    | inl (k, lt, at) ↦ (
      hit pool k,
      k,
      rw (find-cached pool n k v.distinct lt at, get_page),
      hit-Fetched k lt at (room k lt at),
    )
    | inr absent ↦
        let (j, hj, free_j) : (j : ℕ) × (j < cache_page) × (pool.ref j ≡ 0) = elim cached_or_free [
          | inl (k, lt, at) ↦ absurd (absent k lt at)
          | inr free ↦ free
        ] in
        let (t, chosen) = choose_total pool.cnt pool.ref cache_page j hj free_j in
        let least = choose-least pool.cnt pool.ref cache_page t chosen in
        let (pool', e, f) = load-Fetched absent near t least.0 least.1 in
        (pool', t, rw (find-uncached pool n absent, chosen, get_page) e, f)
  ]
