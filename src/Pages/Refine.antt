-- ===== src/Pages/Refine.antt =====
-- The buffer pool of src/buffer_pool.c is a file of pages that is all in memory.
use my_jql.Prelude.{
  ℕ, ◌+◌, ◌*◌, ◌/◌, ◌<◌, ◌≡◌, ◌≢◌, refl, sym, ap, ◌∙◌, none, some, List, [], ◌∷◌, update, ◌==◌, ltb,
  lt→ltb, ge→ltb, lt_or_ge, if◌then◌else◌, true, false, inl, inr, arith,
}
use native.Mathlib.Decide.{ℕ_discrete}
use my_jql.FileIo.{page_size}
use my_jql.BufferPool.{BufferPool, cache_page, unloaded, dec64, find, release, write_frame}
use my_jql.BufferPool.Valid.{page_addr, page_addr-injective, view, view-cached, find-cached}
use my_jql.BufferPool.Install.{Few}
use my_jql.BufferPool.GetPage.{get_page-Fetched}
use my_jql.BufferPool.Release.{view-write_frame, release-held}
use my_jql.Exec.{pure, bind-some}
use my_jql.Pages.{Flat, flat_load, flat_store, flat_pages, pool_pages}
use my_jql.Pages.Held.{
  count, remove, count_le, count-remove_self, count-remove_ne, length-remove, free_frame,
  total-change,
}
use my_jql.Pages.Client.{
  Access, fetch, read, write, leave, perform, length_after, held_after, IsAllowed,
}
use my_jql.Pages.Stands.{
  Stands, flat_get_lem, not_unloaded, headroom, refs_after, Cached-after, sum_after,
}

module _ {P : Type 0} (zero_page : P) where
  -- Both files after an access, and what the client has seen by it.
  abbrev pub Simulated : BufferPool P → Flat P → List ℕ → ℕ → Access P → Type 0
  Simulated pool flat held t a =
      (pool' : BufferPool P) × (flat' : Flat P) × (seen : List P) × (perform (pool_pages zero_page)
          a pool
        ≡ some (seen, pool'))
      × (perform (flat_pages zero_page) a flat ≡ some (seen, flat'))
      × Stands pool' flat' (held_after held a) (t + 1)
      × (flat'.length ≡ length_after flat.length a)

  module _ (pool : BufferPool P) (flat : Flat P) (held : List ℕ) (t : ℕ)
      (s : Stands pool flat held t) (n : ℕ) where
    fetch-Simulated :
        t + 1 < unloaded
        → IsAllowed {P = P} flat.length held (fetch n)
        → Simulated pool flat held t (fetch n)
    unfolding pool_pages flat_pages
    fetch-Simulated later (near, room) =
        let (j, lo, hi, free) = free_frame pool.ref cache_page 0 (omega (arith, s.sum)) in
        let (pool', k, e, f) =
          get_page-Fetched zero_page pool s.valid n (omega (arith, s.same_length))
            (headroom zero_page pool flat held t s n later room) (inr (j, omega arith, free)) in
        let (flat', e', long, page) =
          flat_get_lem zero_page flat n (omega (arith, s.same_length, s.valid.whole_pages)) near in
        (
          pool',
          flat',
          [],
          bind-some ((pool_pages zero_page).get_page (page_addr n)) (λ _. pure []) pool pool' tt
              (ap (λ o. elim o [ none ↦ none | some (p, k) ↦ some (tt, p) ]) e),
          bind-some ((flat_pages zero_page).get_page (page_addr n)) (λ _. pure []) flat flat' tt e',
          record {
            valid = f.valid;
            same_length = omega (arith, f.length, long, s.same_length);
            same = λ m below. elim (lt_or_ge (m * page_size) flat.length) [
              | inl old ↦
                  f.same_view m (omega (arith, s.same_length))
                  ∙ s.same m old
                  ∙ sym (page m below ∙ rw (lt→ltb (m * page_size) flat.length old) refl)
              | inr new ↦
                  let last : m ≡ n = omega (arith, long, s.same_length, s.valid.whole_pages) in
                  let behind : ltb (n * page_size) pool.file.length ≡ false =
                    ge→ltb (n * page_size) pool.file.length (omega (arith, s.same_length, last)) in
                  let zeros : pool'.pages k ≡ zero_page = rw behind at f.page in
                  ap (view pool') last
                  ∙ view-cached pool' n k f.valid.distinct f.in_range f.at
                  ∙ zeros
                  ∙ sym (page m below ∙ rw (ge→ltb (m * page_size) flat.length new) refl)
            ];
            refs = refs_after zero_page pool flat held t s n pool' k f;
            cached = Cached-after zero_page pool flat held t s n pool' k f;
            sum = sum_after zero_page pool flat held t s n pool' k f;
            few = λ i hi. f.few t i hi (s.few i hi);
            most = omega arith;
          },
          long,
        )

    module _ (k : ℕ) (lt : k < cache_page) (at : pool.addrs k ≡ page_addr n) where
      found : find pool (page_addr n) ≡ some k
      found = find-cached pool n k s.valid.distinct lt at

      in_file : ltb (n * page_size) flat.length ≡ true
      in_file =
          lt→ltb (n * page_size) flat.length (not_unloaded zero_page pool flat held t s n k lt at).1

      same_number : n * page_size / page_size ≡ n
      same_number = omega arith

      later-Few : (i : ℕ) → i < cache_page → Few (t + 1) (pool.cnt i)
      later-Few i hi = go (s.few i hi)
        where
          go : Few t (pool.cnt i) → Few (t + 1) (pool.cnt i)
          go (inl e) = inl e
          go (inr le) = inr (omega arith)

      read-frame : Simulated pool flat held t (read n)
      unfolding pool_pages flat_pages flat_load
      read-frame = (
        pool,
        flat,
        pool.pages k ∷ [],
        bind-some ((pool_pages zero_page).load (page_addr n)) (λ page. pure (page ∷ [])) pool pool
            (pool.pages k) (rw (found, pool_pages) refl),
        bind-some ((flat_pages zero_page).load (page_addr n)) (λ page. pure (page ∷ [])) flat flat
            (pool.pages k)
            (rw in_file (
              ap (λ q. some (q, flat))
                (ap flat.page same_number
                  ∙ sym (s.same n (not_unloaded zero_page pool flat held t s n k lt at).1)
                  ∙ view-cached pool n k s.valid.distinct lt at))),
        record {
          valid = s.valid;
          same_length = s.same_length;
          same = s.same;
          refs = s.refs;
          cached = s.cached;
          sum = s.sum;
          few = later-Few;
          most = s.most;
        },
        refl,
      )

      write-frame : (page : P) → Simulated pool flat held t (write n page)
      unfolding pool_pages flat_pages flat_store write_frame
      write-frame page =
          let written : Flat P = record flat { page = λ m. if m == n then page else flat.page m } in
          let (valid, after) = view-write_frame pool s.valid n k lt at page in
          (
            write_frame pool k page,
            written,
            [],
            bind-some ((pool_pages zero_page).store (page_addr n) page) (λ _. pure []) pool
                (write_frame pool k page) tt (rw (found, pool_pages) refl),
            bind-some ((flat_pages zero_page).store (page_addr n) page) (λ _. pure []) flat written
                tt
                (rw in_file (
                  ap
                    (λ i.
                      some (tt, record flat { page = λ m. if m == i then page else flat.page m }))
                    same_number)),
            record {
              valid = valid;
              same_length = s.same_length;
              same = λ m below. after m ∙ ap (λ q. if m == n then page else q) (s.same m below);
              refs = s.refs;
              cached = s.cached;
              sum = s.sum;
              few = later-Few;
              most = s.most;
            },
            refl,
          )

      abbrev released : BufferPool P
      released = record pool { ref = update pool.ref k (dec64 (pool.ref k)) }

      release-found : release pool (page_addr n) ≡ released
      unfolding release
      release-found = rw (found, release) refl

      leave-frame : 0 < count n held → Simulated pool flat held t (leave n)
      unfolding pool_pages flat_pages
      leave-frame some_held =
          let mine = s.refs k n lt at in
          let one : pool.ref k ≡ count n held = mine in
          let (valid, after, refs) = rw release-found at (
            release-held pool s.valid n k lt at (omega (arith, mine))
              (omega (arith, mine, count_le n held, s.most))) in
          let down : released.ref k + 1 ≡ pool.ref k = ground (arith, refs k, mine) in
          let others : (j : ℕ) → j ≢ k → released.ref j ≡ pool.ref j =
            λ j ne. ground (arith, refs j) in
          let shorter = length-remove n held some_held in
          (
            released,
            flat,
            [],
            bind-some ((pool_pages zero_page).release (page_addr n)) (λ _. pure []) pool released tt
                (ap (λ p. some (tt, p)) release-found),
            refl,
            record {
              valid = valid;
              same_length = s.same_length;
              same = λ m below. after m ∙ s.same m below;
              refs = λ j m hj e. elim (ℕ_discrete j k) [
                | yes p ↦
                    let same : n ≡ m =
                      page_addr-injective n m (sym at ∙ ap pool.addrs (sym p) ∙ e) in
                    let fewer : released.ref k ≡ count n (remove n held) =
                      omega (arith, down, mine, count-remove_self n held some_held) in
                    ap (λ i. released.ref i) p ∙ fewer ∙ ap (λ i. count i (remove n held)) same
                | no np ↦
                    let other : m ≢ n = λ q.
                      np (s.valid.distinct j k (n * page_size) hj lt (e ∙ ap page_addr q) at) in
                    others j np ∙ s.refs j m hj e ∙ sym (count-remove_ne m n held other)
              ];
              cached = λ m still. elim (ℕ_discrete m n) [
                | yes p ↦ (k, lt, at ∙ ap page_addr (sym p))
                | no np ↦ s.cached m (omega (arith, count-remove_ne m n held np))
              ];
              sum = omega (
                arith,
                s.sum,
                down,
                shorter,
                total-change pool.ref (released.ref) cache_page 0 k (omega arith) (omega arith)
                    λ j lo hi ne. others j ne,
              );
              few = later-Few;
              most = omega (arith, shorter, s.most);
            },
            refl,
          )

module _ {P : Type 0} (zero_page : P) where
  pub access-Simulated :
      (pool : BufferPool P) (flat : Flat P) (held : List ℕ) (t : ℕ) (s : Stands pool flat held t)
      (a : Access P)
      → t + 1 < unloaded
      → IsAllowed flat.length held a
      → Simulated zero_page pool flat held t a
  access-Simulated pool flat held t s (fetch n) later allowed =
      fetch-Simulated zero_page pool flat held t s n later allowed
  access-Simulated pool flat held t s (read n) later allowed =
      let (k, lt, at) = s.cached n allowed in read-frame zero_page pool flat held t s n k lt at
  access-Simulated pool flat held t s (write n page) later allowed =
      let (k, lt, at) = s.cached n allowed in
      write-frame zero_page pool flat held t s n k lt at page
  access-Simulated pool flat held t s (leave n) later allowed =
      let (k, lt, at) = s.cached n allowed in
      leave-frame zero_page pool flat held t s n k lt at allowed
