-- ===== src/Pages.antt =====
-- What a client of src/buffer_pool.c does with a file of pages: the interface between the buffer
-- pool and the modules above it. `S` is all that the client can reach, `P` how it reads a page.
-- A pointer that `get_page` returned is named by the address that was asked for.
pub mod Part
pub mod Held
pub mod Client
pub mod Stands
pub mod Refine
pub mod Session
pub mod Opened
pub mod Laws
pub mod Filled
mod Tests
use my_jql.Prelude.{
  ℕ, ◌+◌, ◌*◌, ◌/◌, ◌%◌, ℤ, pos, negsuc, none, some, ◌==◌, leb, ltb, if◌then◌else◌, ◌&&◌,
}
use my_jql.FileIo.{page_size}
use my_jql.BufferPool
use my_jql.BufferPool.{BufferPool, find}
use my_jql.Exec.{Exec, pure, ◌>>=◌}

pub record Pages (S P : Type 0) : Type 0 where
  pub get_page : ℤ → Exec S (Unit {0})
  pub load : ℤ → Exec S P
  pub store : ℤ → P → Exec S (Unit {0})
  pub release : ℤ → Exec S (Unit {0})
  pub file_length : Exec S ℕ
  pub set_file_length : ℕ → Exec S (Unit {0})

module _ {S P : Type 0} (pages : Pages S P) where
  -- An assignment through a pointer.
  abbrev pub modify : ℤ → (P → P) → Exec S (Unit {0})
  modify addr f = do page ← pages.load addr; pages.store addr (f page)

-- A file of pages that is all in memory: what a buffer pool stands for.
pub record Flat (P : Type 0) : Type 0 where
  pub page : ℕ → P
  pub length : ℕ

module _ {P : Type 0} (zero_page : P) where
  pub flat_get : ℤ → Exec (Flat P) (Unit {0})
  flat_get (negsuc n) s = none
  flat_get (pos a) s =
      if a % page_size == 0
      then (if leb s.length a
          then some (
            tt,
            record {
              page = λ m.
                  if leb s.length (m * page_size) && leb (m * page_size) a
                  then zero_page
                  else s.page m;
              length = a + page_size;
            },
          )
          else some (tt, s))
      else none

  pub flat_load : ℤ → Exec (Flat P) P
  flat_load (negsuc n) s = none
  flat_load (pos a) s = if ltb a s.length then some (s.page (a / page_size), s) else none

  pub flat_store : ℤ → P → Exec (Flat P) (Unit {0})
  flat_store (negsuc n) page s = none
  flat_store (pos a) page s =
      if ltb a s.length
      then some (tt, record s { page = λ m. if m == a / page_size then page else s.page m })
      else none

  unfoldable pub flat_pages : Pages (Flat P) P
  unfolding flat_get flat_load flat_store
  flat_pages = record {
    get_page = flat_get;
    load = flat_load;
    store = flat_store;
    release = λ addr. pure tt;
    file_length = λ s. some (s.length, s);
    set_file_length = λ n s. some (tt, record s { length = n });
  }

  -- The buffer pool itself.
  unfoldable pub pool_pages : Pages (BufferPool P) P
  pool_pages = record {
    get_page = λ addr pool. elim (BufferPool.get_page zero_page pool addr) [
      | none ↦ none
      | some (pool', k) ↦ some (tt, pool')
    ];
    load = λ addr pool. elim (find pool addr) [ none ↦ none | some k ↦ some (pool.pages k, pool) ];
    store = λ addr page pool. elim (find pool addr) [
      | none ↦ none
      | some k ↦ some (tt, BufferPool.write_frame pool k page)
    ];
    release = λ addr pool. some (tt, BufferPool.release pool addr);
    file_length = λ pool. some (pool.file.length, pool);
    set_file_length = λ n pool. some (tt, record pool { file = record pool.file { length = n } });
  }
