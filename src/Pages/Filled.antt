-- ===== src/Pages/Filled.antt =====
-- The laws of Pages/Laws hold of a file in memory and of the buffer pool of src/buffer_pool.c.
use my_jql.Prelude.{
  ℕ, suc, ◌+◌, ◌*◌, ◌/◌, ◌%◌, ◌<◌, ◌≡◌, refl, sym, ap, ◌∙◌, some, List, [], ◌∷◌, length, leb, ltb,
  lt→ltb, ◌==◌, true, false, if◌then◌else◌, update, arith,
}
use mathlib.Core.Path.{subst}
use my_jql.FileIo.{page_size}
use my_jql.BufferPool.{BufferPool, cache_page, unloaded}
use my_jql.BufferPool.Valid.{page_addr}
use my_jql.Exec.{bind-pure, same_result}
use my_jql.Pages.{Flat, flat_get, flat_load, flat_store, flat_pages, pool_pages}
use my_jql.Pages.Held.{count, remove}
use my_jql.Pages.Client.{fetch, read, write, leave}
use my_jql.Pages.Stands.{Stands}
use my_jql.Pages.Refine.{access-Simulated}
use my_jql.Pages.Laws.{HasPages}

module _ {P : Type 0} (zero_page : P) where
  -- The calls for a page of a file in memory.
  module _ (flat : Flat P) (n : ℕ) (below : n * page_size < flat.length) where
    in_file : ltb (n * page_size) flat.length ≡ true
    in_file = lt→ltb (n * page_size) flat.length below

    same_number : n * page_size / page_size ≡ n
    same_number = omega arith

    pub flat_get-known : flat_get zero_page (page_addr n) flat ≡ some (tt, flat)
    unfolding flat_get
    flat_get-known =
        let aligned : (n * page_size % page_size == 0) ≡ true = ground arith in
        let known : leb flat.length (n * page_size) ≡ false = ground arith in
        rw (aligned, known) refl

    pub flat_load-known : flat_load zero_page (page_addr n) flat ≡ some (flat.page n, flat)
    unfolding flat_load
    flat_load-known = rw in_file (ap (λ i. some (flat.page i, flat)) same_number)

    pub flat_store-known :
        (page : P)
        → flat_store zero_page (page_addr n) page flat
          ≡ some (tt, record flat { page = update flat.page n page })
    unfolding flat_store
    flat_store-known page =
        rw in_file (ap (λ i. some (tt, record flat { page = update flat.page i page })) same_number)

  abbrev pub IsFlat : (ℕ → P) → ℕ → Flat P → Type 0
  IsFlat content size flat =
      (flat.length ≡ size) × ((m : ℕ) → m * page_size < size → flat.page m ≡ content m)

  pub flat_pages-HasPages : HasPages (flat_pages zero_page)
  unfolding flat_pages
  flat_pages-HasPages = record {
    Shows = λ content size held budget. IsFlat content size;
    waste = λ content size held budget s shows. shows;
    get = λ content size held budget s n below room shows.
        (s, flat_get-known s n (omega (arith, shows.0)), shows);
    load = λ content size held budget s n some_held below shows. (
      s,
      flat_load-known s n (omega (arith, shows.0)) ∙ ap (λ q. some (q, s)) (shows.1 n below),
      shows,
    );
    store = λ content size held budget s n page some_held below shows. (
      record s { page = update s.page n page },
      flat_store-known s n (omega (arith, shows.0)) page,
      (shows.0, λ m below. ap (λ q. if m == n then page else q) (shows.1 m below)),
    );
    release = λ content size held budget s n some_held shows. (s, refl, shows);
  }

  pub flat-Shows :
      (content : ℕ → P) (size : ℕ) (held : List ℕ) (budget : ℕ) (flat : Flat P)
      → IsFlat content size flat
      → flat_pages-HasPages.Shows content size held budget flat
  unfolding flat_pages-HasPages
  flat-Shows content size held budget flat is_flat = is_flat

  abbrev pub IsPool : (ℕ → P) → ℕ → List ℕ → ℕ → BufferPool P → Type 0
  IsPool content size held budget pool =
      (flat : Flat P) × (t : ℕ) × Stands pool flat held t
      × IsFlat content size flat
      × (t + budget < unloaded)

  module _ (content : ℕ → P) (size : ℕ) (held : List ℕ) (budget : ℕ) (pool : BufferPool P) (n : ℕ)
      (shows : IsPool content size held (suc budget) pool) where
    pool_get :
        n * page_size < size
        → length held < cache_page
        → (pool' : BufferPool P) × ((pool_pages zero_page).get_page (page_addr n) pool
            ≡ some (tt, pool'))
          × IsPool content size (n ∷ held) budget pool'
    unfolding flat_pages
    pool_get below room =
        let (flat, t, s, is_flat, few) = shows in
        let (pool', flat', seen, e, e', s', long) =
          access-Simulated zero_page pool flat held t s (fetch n) (omega arith)
            (omega (arith, is_flat.0), room) in
        let (_, called, _) =
          bind-pure ((pool_pages zero_page).get_page (page_addr n)) (λ _. []) pool pool' seen e in
        let (_, flat_called, _) =
          bind-pure (flat_get zero_page (page_addr n)) (λ _. []) flat flat' seen e' in
        let (_, same) =
          same_result tt tt flat flat'
            (sym (flat_get-known flat n (omega (arith, is_flat.0))) ∙ flat_called) in
        (pool', called, (flat', t + 1, s', subst (IsFlat content size) same is_flat, omega arith))

    module _ (some_held : 0 < count n held) where
      pool_release :
          (pool' : BufferPool P) × ((pool_pages zero_page).release (page_addr n) pool
            ≡ some (tt, pool'))
          × IsPool content size (remove n held) budget pool'
      unfolding flat_pages
      pool_release =
          let (flat, t, s, is_flat, few) = shows in
          let (pool', flat', seen, e, e', s', long) =
            access-Simulated zero_page pool flat held t s (leave n) (omega arith) some_held in
          let (_, called, _) =
            bind-pure ((pool_pages zero_page).release (page_addr n)) (λ _. []) pool pool' seen e in
          let (_, same) = same_result [] seen flat flat' e' in
          (pool', called, (flat', t + 1, s', subst (IsFlat content size) same is_flat, omega arith))

      pool_load :
          n * page_size < size
          → (pool' : BufferPool P) × ((pool_pages zero_page).load (page_addr n) pool
              ≡ some (content n, pool'))
            × IsPool content size held budget pool'
      unfolding flat_pages
      pool_load below =
          let (flat, t, s, is_flat, few) = shows in
          let (pool', flat', seen, e, e', s', long) =
            access-Simulated zero_page pool flat held t s (read n) (omega arith) some_held in
          let (page, called, sees) =
            bind-pure ((pool_pages zero_page).load (page_addr n)) (λ q. q ∷ []) pool pool' seen e in
          let (page', flat_called, sees') =
            bind-pure (flat_load zero_page (page_addr n)) (λ q. q ∷ []) flat flat' seen e' in
          let (same_page, same) =
            same_result (flat.page n) page' flat flat'
              (sym (flat_load-known flat n (omega (arith, is_flat.0))) ∙ flat_called) in
          let one : page ≡ page' = only page page' (sees ∙ sym sees') in
          (
            pool',
            called ∙ ap (λ q. some (q, pool')) (one ∙ sym same_page ∙ is_flat.1 n below),
            (flat', t + 1, s', subst (IsFlat content size) same is_flat, omega arith),
          )
        where
          only : (q q' : P) → q ∷ [] ≡ q' ∷ [] → q ≡ q'
          only q q' e = ground (arith, e)

      pool_store :
          (page : P)
          → n * page_size < size
          → (pool' : BufferPool P) × ((pool_pages zero_page).store (page_addr n) page pool
              ≡ some (tt, pool'))
            × IsPool (update content n page) size held budget pool'
      unfolding flat_pages
      pool_store page below =
          let (flat, t, s, is_flat, few) = shows in
          let (pool', flat', seen, e, e', s', long) =
            access-Simulated zero_page pool flat held t s (write n page) (omega arith) some_held in
          let (_, called, _) =
            bind-pure ((pool_pages zero_page).store (page_addr n) page) (λ _. []) pool pool' seen
              e in
          let (_, flat_called, _) =
            bind-pure (flat_store zero_page (page_addr n) page) (λ _. []) flat flat' seen e' in
          let written : Flat P = record flat { page = update flat.page n page } in
          let is_written : IsFlat (update content n page) size written =
            (is_flat.0, λ m below. ap (λ q. if m == n then page else q) (is_flat.1 m below)) in
          let (_, same) =
            same_result tt tt written flat'
              (sym (flat_store-known flat n (omega (arith, is_flat.0)) page) ∙ flat_called) in
          (
            pool',
            called,
            (
              flat',
              t + 1,
              s',
              subst (IsFlat (update content n page) size) same is_written,
              omega arith,
            ),
          )

  pub pool_pages-HasPages : HasPages (pool_pages zero_page)
  pool_pages-HasPages = record {
    Shows = IsPool;
    waste = λ content size held budget s (flat, t, stands, is_flat, few).
        (flat, t, stands, is_flat, omega arith);
    get = λ content size held budget s n below room shows.
        pool_get content size held budget s n shows below room;
    load = λ content size held budget s n some_held below shows.
        pool_load content size held budget s n shows some_held below;
    store = λ content size held budget s n page some_held below shows.
        pool_store content size held budget s n shows some_held page below;
    release = λ content size held budget s n some_held shows.
        pool_release content size held budget s n shows some_held;
  }

  pub pool-Shows :
      (content : ℕ → P) (size : ℕ) (held : List ℕ) (budget : ℕ) (pool : BufferPool P)
      → IsPool content size held budget pool
      → pool_pages-HasPages.Shows content size held budget pool
  unfolding pool_pages-HasPages
  pool-Shows content size held budget pool shows = shows
