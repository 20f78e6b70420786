-- ===== src/BufferPool/Install.antt =====
-- The miss of `get_page` of src/buffer_pool.c: a page is installed in a frame that nobody holds.
use my_jql.Prelude.{
  ℕ, ◌+◌, ◌*◌, ◌≤◌, ◌<◌, max, ◌≡◌, ◌≢◌, refl, ap, ◌∙◌, sym, inl, inr, arith, ◌⊎◌, Bool-cases, ℤ,
  if◌then◌else◌, ltb, ◌==◌, lt→ltb,
}
use native.Mathlib.Decide.{ℕ_discrete}
use my_jql.FileIo.{page_size, FileInfo}
use my_jql.BufferPool.{BufferPool, cache_page, unloaded, install}
use my_jql.BufferPool.Valid.{
  page_addr, page_addr-injective, Frame, empty, loaded, Cached, IsValid, Distinct, view,
  view-cached, view-uncached, Cached-cases, on_disk,
}
use my_jql.BufferPool.WriteBack.{Written}

-- A count that is at most `b`, or that of a frame that has not been loaded.
abbrev pub Few : (b c : ℕ) → Type 0
Few b c = (c ≡ unloaded) ⊎ (c ≤ b)

-- What `get_page` gives for page `n`: frame `k` holds the page that the client is to see, a page
-- behind the end of the file is `zero_page` and becomes its last, no page of the view changes, and
-- the frames that somebody holds keep their pages. Frame `k` has one holder more than before and the
-- others as many; they keep their addresses, and no count grows by more than one.
pub record Fetched {P : Type 0} (zero_page : P) (pool : BufferPool P) (n : ℕ) (pool' : BufferPool P)
    (k : ℕ) : Type 0 where
  pub valid : IsValid pool'
  pub in_range : k < cache_page
  pub at : pool'.addrs k ≡ page_addr n
  pub page :
      pool'.pages k ≡ (if ltb (n * page_size) pool.file.length then view pool n else zero_page)
  pub length : pool'.file.length ≡ max pool.file.length (n * page_size + page_size)
  pub same_view : (m : ℕ) → m * page_size < pool.file.length → view pool' m ≡ view pool m
  pub held : 0 < pool'.ref k
  pub pinned :
      (j : ℕ)
      → j < cache_page
      → 0 < pool.ref j
      → (pool'.addrs j ≡ pool.addrs j)
        × (pool'.pages j ≡ pool.pages j)
        × (pool'.ref j ≡ (if j == k then pool.ref j + 1 else pool.ref j))
  pub counted :
      (j : ℕ) → j < cache_page → pool'.ref j ≡ (if j == k then pool.ref j + 1 else pool.ref j)
  pub others : (j : ℕ) → j ≢ k → pool'.addrs j ≡ pool.addrs j
  pub few : (b j : ℕ) → j < cache_page → Few b (pool.cnt j) → Few (b + 1) (pool'.cnt j)

module _ {P : Type 0} (zero_page : P) (pool : BufferPool P) (v : IsValid pool) (n t : ℕ)
    (lt : t < cache_page) (free : pool.ref t ≡ 0)
    (absent : (k : ℕ) → k < cache_page → pool.addrs k ≢ page_addr n)
    (near : n * page_size ≤ pool.file.length) (written file : FileInfo P) (page : P)
    (w : Written pool t written) (same_fp : file.fp ≡ written.fp)
    (grown : file.length ≡ max pool.file.length (n * page_size + page_size)) where
  abbrev pool' : BufferPool P
  pool' = install pool file t (page_addr n) page

  at_target :
      (pool'.addrs t ≡ page_addr n) × (pool'.pages t ≡ page) × (pool'.cnt t ≡ 1) × (pool'.ref t ≡ 1)
  unfolding install
  at_target = ground arith

  elsewhere :
      (k : ℕ)
      → k ≢ t
      → (pool'.addrs k ≡ pool.addrs k)
        × (pool'.pages k ≡ pool.pages k)
        × (pool'.cnt k ≡ (if pool.cnt k == unloaded then unloaded else 0))
        × (pool'.ref k ≡ pool.ref k)
  unfolding install
  elsewhere k ne = ground arith

  same_file : pool'.file ≡ file
  unfolding install
  same_file = refl

  Frame-kept :
      {length length' : ℕ} {addr : ℤ} {cnt : ℕ}
      → length ≤ length'
      → Frame length addr cnt
      → Frame length' addr (if cnt == unloaded then unloaded else 0)
  Frame-kept le (empty no_addr e) = empty no_addr (ground arith)
  Frame-kept le (loaded m at fits few) = loaded m at (omega arith) (ground arith)

  distinct' : Distinct pool'
  distinct' j k a hj hk ej ek = elim (ℕ_discrete j t) [
    | yes ej' ↦ elim (ℕ_discrete k t) [
      | yes ek' ↦ ej' ∙ sym ek'
      | no nk ↦
          absurd (
            absent k hk (sym (elsewhere k nk).0 ∙ ek ∙ sym ej ∙ ap (pool'.addrs) ej' ∙ at_target.0))
    ]
    | no nj ↦ elim (ℕ_discrete k t) [
      | yes ek' ↦
          absurd (
            absent j hj (sym (elsewhere j nj).0 ∙ ej ∙ sym ek ∙ ap (pool'.addrs) ek' ∙ at_target.0))
      | no nk ↦ v.distinct j k a hj hk (sym (elsewhere j nj).0 ∙ ej) (sym (elsewhere k nk).0 ∙ ek)
    ]
  ]

  absent' :
      (m : ℕ)
      → m ≢ n
      → ((k : ℕ) → k < cache_page → k ≢ t → pool.addrs k ≢ page_addr m)
      → (k : ℕ) → k < cache_page
      → pool'.addrs k ≢ page_addr m
  absent' m ne none_has k hk e = elim (ℕ_discrete k t) [
    | yes p ↦ ne (page_addr-injective m n (sym e ∙ ap (pool'.addrs) p ∙ at_target.0))
    | no np ↦ none_has k hk np (sym (elsewhere k np).0 ∙ e)
  ]

  same_view_ne : (m : ℕ) → m * page_size < pool.file.length → m ≢ n → view pool' m ≡ view pool m
  same_view_ne m below ne = elim (Cached-cases pool m) [
    | inl (j, hj, e) ↦ elim (ℕ_discrete j t) [
      | yes p ↦
          let e' : pool.addrs t ≡ page_addr m = ap pool.addrs (sym p) ∙ e in
          view-uncached pool' m
            (absent' m ne λ k hk nk e''. nk (v.distinct k t (m * page_size) hk lt e'' e'))
          ∙ ap (λ f. f.fp.content m) same_file
          ∙ ap (λ f. f.content m) same_fp
          ∙ (w.stored m e').0
          ∙ sym (view-cached pool m t v.distinct lt e')
      | no np ↦
          view-cached pool' m j distinct' hj ((elsewhere j np).0 ∙ e)
          ∙ (elsewhere j np).1
          ∙ sym (view-cached pool m j v.distinct hj e)
    ]
    | inr none_has ↦
        view-uncached pool' m (absent' m ne λ k hk nk. none_has k hk)
        ∙ ap (λ f. f.fp.content m) same_file
        ∙ ap (λ f. f.content m) same_fp
        ∙ w.kept m (on_disk pool v m below none_has) (none_has t lt)
        ∙ sym (view-uncached pool m none_has)
  ]

  frame' : (k : ℕ) → k < cache_page → Frame pool'.file.length (pool'.addrs k) (pool'.cnt k)
  frame' k hk = elim (ℕ_discrete k t) [
    | yes p ↦
        loaded n (ap (pool'.addrs) p ∙ at_target.0)
          (omega (arith, ap (λ f. f.length) same_file, grown))
          (omega (arith, ap (pool'.cnt) p, at_target.2))
    | no np ↦
        rw ((elsewhere k np).0, (elsewhere k np).2)
          (Frame-kept (omega (arith, ap (λ f. f.length) same_file, grown)) (v.frame k hk))
  ]

  backed' :
      (m : ℕ)
      → m * page_size < pool'.file.length
      → pool'.file.fp.size ≤ m * page_size
      → Cached pool' m
  backed' m below behind = elim (ℕ_discrete m n) [
    | yes p ↦ (t, lt, at_target.0 ∙ ap page_addr (sym p))
    | no np ↦
        let size : pool'.file.fp.size ≡ written.fp.size =
          ap (λ f. f.fp.size) same_file ∙ ap (λ f. f.size) same_fp in
        let length : pool'.file.length ≡ file.length = ap (λ f. f.length) same_file in
        let (j, hj, e) =
          v.backed m (omega (arith, length, grown, v.whole_pages)) (omega (arith, size, w.grows)) in
        let nj : j ≢ t =
          λ p. absurd (omega (arith, size, (w.stored m (ap pool.addrs (sym p) ∙ e)).1)) in
        (j, hj, (elsewhere j nj).0 ∙ e)
  ]

  IsValid-install : IsValid pool'
  IsValid-install = record {
    works = ap (λ f. f.fp.working) same_file ∙ ap (λ f. f.working) same_fp ∙ w.works;
    whole_pages = omega (arith, ap (λ f. f.length) same_file, grown, v.whole_pages);
    whole_size = omega (arith, ap (λ f. f.fp.size) same_file, ap (λ f. f.size) same_fp, w.whole);
    size_le = omega (
      arith,
      ap (λ f. f.length) same_file,
      ap (λ f. f.fp.size) same_file,
      ap (λ f. f.size) same_fp,
      grown,
      w.bounded,
    );
    frame = frame';
    distinct = distinct';
    backed = backed';
  }

  Few-reset : (b c : ℕ) → Few (b + 1) (if c == unloaded then unloaded else 0)
  Few-reset b c = elim (Bool-cases (c == unloaded)) [
    | inl e ↦ rw e (inl refl)
    | inr e ↦ rw e (inr (omega arith))
  ]

  pub install-Fetched :
      page ≡ (if ltb (n * page_size) pool.file.length then view pool n else zero_page)
      → Fetched zero_page pool n pool' t
  install-Fetched same_page = record {
    valid = IsValid-install;
    in_range = lt;
    at = at_target.0;
    page = at_target.1 ∙ same_page;
    length = ap (λ f. f.length) same_file ∙ grown;
    same_view = λ m below. elim (ℕ_discrete m n) [
      | yes p ↦
          let in_file = lt→ltb (n * page_size) pool.file.length (omega arith) in
          let read : page ≡ view pool n = rw in_file at same_page in
          rw p (view-cached pool' n t distinct' lt at_target.0 ∙ at_target.1 ∙ read)
      | no np ↦ same_view_ne m below np
    ];
    held = omega (arith, at_target.3);
    pinned = λ j hj some_held.
        let ne : j ≢ t = λ p. absurd (omega (arith, ap pool.ref p)) in
        let e = elsewhere j ne in (e.0, e.1, e.3 ∙ ground arith);
    counted = λ j hj. elim (ℕ_discrete j t) [
      | yes p ↦ ap (pool'.ref) p ∙ at_target.3 ∙ ground (arith, free, ap pool.ref p)
      | no ne ↦ (elsewhere j ne).3 ∙ ground arith
    ];
    others = λ j ne. (elsewhere j ne).0;
    few = λ b j hj f. elim (ℕ_discrete j t) [
      | yes p ↦ inr (omega (arith, ap (pool'.cnt) p, at_target.2))
      | no ne ↦ rw (elsewhere j ne).2 (Few-reset b (pool.cnt j))
    ];
  }
