-- ===== src/BufferPool/Valid.antt =====
-- The invariant of a buffer pool, and the pages that a pool stands for.
use my_jql.Prelude.{
  ℕ, ◌+◌, ◌*◌, ◌%◌, ◌≤◌, ◌<◌, ◌≡◌, ◌≢◌, ap, ◌⊎◌, inl, inr, Option, none, some, true, arith, ℤ, pos,
  negsuc, minus_one, Option-cases,
}
use native.Mathlib.Decide.{dec_lt}
use my_jql.FileIo.{page_size}
use my_jql.BufferPool.{BufferPool, cache_page, unloaded, find}
use my_jql.BufferPool.Find.{find_frame-some, find_frame-none, find_frame_unique, find_frame-absent}

-- The address of page `n`.
abbrev pub page_addr : ℕ → ℤ
page_addr n = pos (n * page_size)

-- A frame holds nothing, or a page below `length`, loaded less than `2 ^ 64 - 1` requests ago.
pub data Frame (length : ℕ) (addr : ℤ) (cnt : ℕ) : Type 0 where
  empty : addr ≡ minus_one → cnt ≡ unloaded → Frame length addr cnt
  loaded :
      (n : ℕ)
      → addr ≡ page_addr n
      → n * page_size + page_size ≤ length
      → cnt < unloaded
      → Frame length addr cnt

module _ {P : Type 0} where
  -- Page `n` is in a frame.
  abbrev pub Cached : BufferPool P → ℕ → Type 0
  Cached pool n = (k : ℕ) × (k < cache_page) × (pool.addrs k ≡ page_addr n)

  -- `length` counts pages that are in frames and not yet on the disk, so it may pass `size`.
  pub record IsValid (pool : BufferPool P) : Type 0 where
    pub works : pool.file.fp.working ≡ true
    pub whole_pages : pool.file.length % page_size ≡ 0
    pub whole_size : pool.file.fp.size % page_size ≡ 0
    pub size_le : pool.file.fp.size ≤ pool.file.length
    pub frame : (k : ℕ) → k < cache_page → Frame pool.file.length (pool.addrs k) (pool.cnt k)
    pub distinct :
        (j k a : ℕ)
        → j < cache_page
        → k < cache_page
        → pool.addrs j ≡ pos a
        → pool.addrs k ≡ pos a
        → j ≡ k
    pub backed :
        (n : ℕ)
        → n * page_size < pool.file.length
        → pool.file.fp.size ≤ n * page_size
        → Cached pool n

  -- The page that a client finds at page number `n`: the frame's if it is cached, else the disk's.
  abbrev choose_page : BufferPool P → ℕ → Option ℕ → P
  choose_page pool n none = pool.file.fp.content n
  choose_page pool n (some k) = pool.pages k

  abbrev pub view : BufferPool P → ℕ → P
  view pool n = choose_page pool n (find pool (page_addr n))

  abbrev pub Distinct : BufferPool P → Type 0
  Distinct pool =
      (j k a : ℕ)
      → j < cache_page
      → k < cache_page
      → pool.addrs j ≡ pos a
      → pool.addrs k ≡ pos a
      → j ≡ k

  module _ (pool : BufferPool P) (n : ℕ) where
    pub find-cached :
        (k : ℕ)
        → Distinct pool
        → k < cache_page
        → pool.addrs k ≡ page_addr n
        → find pool (page_addr n) ≡ some k
    find-cached k distinct lt at =
        find_frame_unique pool.addrs (page_addr n) cache_page 0 k (omega arith) (omega arith) at
          λ j lo hi e. distinct j k (n * page_size) (omega arith) lt e at

    pub view-cached :
        (k : ℕ)
        → Distinct pool
        → k < cache_page
        → pool.addrs k ≡ page_addr n
        → view pool n ≡ pool.pages k
    view-cached k distinct lt at = ap (choose_page pool n) (find-cached k distinct lt at)

    pub find-uncached :
        ((k : ℕ) → k < cache_page → pool.addrs k ≢ page_addr n) → find pool (page_addr n) ≡ none
    find-uncached absent =
        find_frame-absent pool.addrs (page_addr n) cache_page 0 λ j lo hi. absent j (omega arith)

    pub view-uncached :
        ((k : ℕ) → k < cache_page → pool.addrs k ≢ page_addr n)
        → view pool n ≡ pool.file.fp.content n
    view-uncached absent = ap (choose_page pool n) (find-uncached absent)

    -- A page is in a frame, at the index that the search returns, or in none.
    pub Cached-cases : Cached pool n ⊎ ((k : ℕ) → k < cache_page → pool.addrs k ≢ page_addr n)
    Cached-cases = elim (Option-cases (find pool (page_addr n))) [
      | inl e ↦ inr λ k lt.
          find_frame-none pool.addrs (page_addr n) cache_page 0 k e (omega arith) (omega arith)
      | inr (k, e) ↦
          let f = find_frame-some pool.addrs (page_addr n) cache_page 0 k e in
          inl (k, omega (arith, f.1), f.2)
    ]

module _ {P : Type 0} (pool : BufferPool P) (v : IsValid pool) where
  -- A page that was not cached is on the disk.
  pub on_disk :
      (m : ℕ)
      → m * page_size < pool.file.length
      → ((k : ℕ) → k < cache_page → pool.addrs k ≢ page_addr m)
      → m * page_size < pool.file.fp.size
  on_disk m below none_has = elim (dec_lt (m * page_size) pool.file.fp.size) [
    | yes h ↦ h
    | no h ↦ let (k, hk, e) = v.backed m below (omega arith) in absurd (none_has k hk e)
  ]

pub page_addr-injective : (m n : ℕ) → page_addr m ≡ page_addr n → m ≡ n
page_addr-injective m n e = omega (arith, ap magnitude e)
  where
    magnitude : ℤ → ℕ
    magnitude (pos a) = a
    magnitude (negsuc a) = a
