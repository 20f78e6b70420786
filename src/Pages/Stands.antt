-- ===== src/Pages/Stands.antt =====
-- What a pool of src/buffer_pool.c that stands for a file in memory keeps when a page is fetched.
use my_jql.Prelude.{
  ℕ, ◌+◌, ◌*◌, ◌%◌, ◌≤◌, ◌<◌, max, ◌≡◌, ◌≢◌, refl, sym, ap, ◌∙◌, some, List, ◌∷◌, length, ◌==◌, leb,
  ltb, ◌=ℤ◌, =ℤ_iff, lt→ltb, ◌&&◌, if◌then◌else◌, Bool-cases, true, inl, inr, arith,
}
use native.Mathlib.Decide.{ℕ_discrete}
use my_jql.FileIo.{page_size}
use my_jql.BufferPool.{BufferPool, cache_page, unloaded}
use my_jql.BufferPool.Valid.{
  page_addr, page_addr-injective, Frame, empty, loaded, Cached, IsValid, view,
}
use my_jql.BufferPool.Install.{Few, Fetched}
use my_jql.BufferPool.GetPage.{HasHeadroom}
use my_jql.Pages.{Flat, flat_get}
use my_jql.Pages.Held.{count, count_le, count-cons_self, count-cons_ne, total, total-change}

-- After `t` accesses of a client that holds the pages `held`, a pool stands for a flat file: clients
-- see the same pages, and the frames count the holders.
pub record Stands {P : Type 0} (pool : BufferPool P) (flat : Flat P) (held : List ℕ) (t : ℕ)
    : Type 0 where
  pub valid : IsValid pool
  pub same_length : pool.file.length ≡ flat.length
  pub same : (m : ℕ) → m * page_size < flat.length → view pool m ≡ flat.page m
  pub refs : (k n : ℕ) → k < cache_page → pool.addrs k ≡ page_addr n → pool.ref k ≡ count n held
  pub cached : (n : ℕ) → 0 < count n held → Cached pool n
  pub sum : total pool.ref cache_page 0 ≡ length held
  pub few : (k : ℕ) → k < cache_page → Few t (pool.cnt k)
  pub most : length held ≤ cache_page

module _ {P : Type 0} (zero_page : P) where
  -- `flat_get` of a page of the file, or of the one behind it.
  pub flat_get_lem :
      (flat : Flat P) (n : ℕ)
      → flat.length % page_size ≡ 0
      → n * page_size ≤ flat.length
      → (flat' : Flat P) × (flat_get zero_page (page_addr n) flat ≡ some (tt, flat'))
        × (flat'.length ≡ max flat.length (n * page_size + page_size))
        × ((m : ℕ)
            → m * page_size < flat'.length
            → flat'.page m ≡ (if ltb (m * page_size) flat.length then flat.page m else zero_page))
  unfolding flat_get
  flat_get_lem flat n whole near =
      let aligned : (n * page_size % page_size == 0) ≡ true = ground arith in
      elim (Bool-cases (leb flat.length (n * page_size))) [
        | inl e ↦ (
          record {
            page = λ m.
                if leb flat.length (m * page_size) && leb (m * page_size) (n * page_size)
                then zero_page
                else flat.page m;
            length = n * page_size + page_size;
          },
          rw (aligned, e) refl,
          ground arith,
          λ m below. ground arith,
        )
        | inr e ↦ (
          flat,
          rw (aligned, e) refl,
          ground arith,
          λ m below. rw (lt→ltb (m * page_size) flat.length below) refl,
        )
      ]

  module _ (pool : BufferPool P) (flat : Flat P) (held : List ℕ) (t : ℕ)
      (s : Stands pool flat held t) (n : ℕ) where
    -- The frame of a page is loaded.
    pub not_unloaded :
        (k : ℕ)
        → k < cache_page
        → pool.addrs k ≡ page_addr n
        → (pool.cnt k < unloaded) × (n * page_size < flat.length)
    not_unloaded k lt at = go (s.valid.frame k lt)
      where
        go :
            Frame pool.file.length (pool.addrs k) (pool.cnt k)
            → (pool.cnt k < unloaded) × (n * page_size < flat.length)
        go (empty e c) = cc (e, at)
        go (loaded m e le few) =
            let same = page_addr-injective m n (sym e ∙ at) in
            (few, omega (arith, same, s.same_length))

    -- The counters of a frame do not wrap in the next access.
    pub headroom :
        t + 1 < unloaded → length held < cache_page → HasHeadroom zero_page pool s.valid n
    headroom later few k lt at = (go (s.few k lt), omega (arith, s.refs k n lt at, count_le n held))
      where
        go : Few t (pool.cnt k) → pool.cnt k + 1 < unloaded
        go (inl e) = absurd (omega (arith, (not_unloaded k lt at).0))
        go (inr le) = omega arith

    module _ (pool' : BufferPool P) (k : ℕ) (f : Fetched zero_page pool n pool' k) where
      -- A page that is held stays where it is.
      stays :
          (m : ℕ)
          → 0 < count m held
          → (j : ℕ) × (j < cache_page)
            × (pool.addrs j ≡ page_addr m)
            × (pool'.addrs j ≡ page_addr m)
      stays m some_held =
          let (j, hj, e) = s.cached m some_held in
          (j, hj, e, (f.pinned j hj (omega (arith, s.refs j m hj e))).0 ∙ e)

      ref_before : pool.ref k ≡ count n held
      ref_before = elim (Bool-cases (pool.addrs k =ℤ page_addr n)) [
        | inl e ↦ s.refs k n f.in_range ((=ℤ_iff (pool.addrs k) (page_addr n)).0 e)
        | inr e ↦
            let away : pool.addrs k ≢ page_addr n =
              λ at. absurd (ground (arith, (=ℤ_iff (pool.addrs k) (page_addr n)).1 at)) in
            nobody away ∙ sym (not_held away)
      ]
        where
          nobody : pool.addrs k ≢ page_addr n → pool.ref k ≡ 0
          nobody away = elim (ℕ_discrete (pool.ref k) 0) [
            | yes e ↦ e
            | no ne ↦ absurd (away (sym (f.pinned k f.in_range (omega arith)).0 ∙ f.at))
          ]

          not_held : pool.addrs k ≢ page_addr n → count n held ≡ 0
          not_held away = elim (ℕ_discrete (count n held) 0) [
            | yes e ↦ e
            | no ne ↦
                let (j, hj, e, e') = stays n (omega arith) in
                absurd (
                  away (
                    ap pool.addrs (sym (f.valid.distinct j k (n * page_size) hj f.in_range e' f.at))
                    ∙ e))
          ]

      pub refs_after :
          (j m : ℕ)
          → j < cache_page
          → pool'.addrs j ≡ page_addr m
          → pool'.ref j ≡ count m (n ∷ held)
      refs_after j m hj e = elim (ℕ_discrete j k) [
        | yes p ↦
            let same : m ≡ n = page_addr-injective m n (sym e ∙ ap (pool'.addrs) p ∙ f.at) in
            let more : pool'.ref j ≡ count n held + 1 =
              ground (arith, f.counted j hj, ref_before, ap pool.ref p) in
            more ∙ sym (count-cons_self n held) ∙ ap (λ i. count i (n ∷ held)) (sym same)
        | no np ↦
            let other : m ≢ n = λ q.
              np (f.valid.distinct j k (n * page_size) hj f.in_range (e ∙ ap page_addr q) f.at) in
            let as_before : pool'.ref j ≡ pool.ref j = ground (arith, f.counted j hj) in
            as_before ∙ s.refs j m hj (sym (f.others j np) ∙ e) ∙ sym (count-cons_ne m n held other)
      ]

      pub Cached-after : (m : ℕ) → 0 < count m (n ∷ held) → Cached pool' m
      Cached-after m some_held = elim (ℕ_discrete m n) [
        | yes p ↦ (k, f.in_range, f.at ∙ ap page_addr (sym p))
        | no np ↦
            let (j, hj, e, e') = stays m (omega (arith, count-cons_ne m n held np)) in (j, hj, e')
      ]

      pub sum_after : total pool'.ref cache_page 0 ≡ length (n ∷ held)
      sum_after =
          let here : pool'.ref k ≡ pool.ref k + 1 = ground (arith, f.counted k f.in_range) in
          omega (
            arith,
            here,
            s.sum,
            total-change pool.ref pool'.ref cache_page 0 k (omega arith) (omega (arith, f.in_range))
                λ j lo hi ne. ground (arith, f.counted j (omega arith)),
          )
