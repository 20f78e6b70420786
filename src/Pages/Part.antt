-- ===== src/Pages/Part.antt =====
-- A file of pages that is a part of a larger state, as the two files of a table are.
use my_jql.Prelude.{ℕ, ◌*◌, ◌<◌, ◌≡◌, refl, ap, ◌∙◌, none, some}
use my_jql.FileIo.{page_size}
use my_jql.BufferPool.Valid.{page_addr}
use my_jql.Exec.{Exec}
use my_jql.Pages.{Pages, Flat, flat_pages}
use my_jql.Pages.Filled.{flat_get-known, flat_load-known}

module _ {S T : Type 0} (part : S → T) (put : S → T → S) where
  abbrev pub within : {A : Type 0} → Exec T A → Exec S A
  within m s = elim (m (part s)) [ none ↦ none | some (a, t) ↦ some (a, put s t) ]

  -- A step that leaves the part as it is.
  pub within-same :
      {A : Type 0} (m : Exec T A) (s : S) (a : A)
      → put s (part s) ≡ s
      → m (part s) ≡ some (a, part s)
      → within m s ≡ some (a, s)
  within-same m s a back e =
      ap (λ o. elim o [ none ↦ none | some (a, t) ↦ some (a, put s t) ]) e
      ∙ ap (λ q. some (a, q)) back

  abbrev pub part_pages : {P : Type 0} → Pages T P → Pages S P
  part_pages pages = record {
    get_page = λ addr. within (pages.get_page addr);
    load = λ addr. within (pages.load addr);
    store = λ addr page. within (pages.store addr page);
    release = λ addr. within (pages.release addr);
    file_length = within pages.file_length;
    set_file_length = λ n. within (pages.set_file_length n);
  }

module _ {S P : Type 0} (zero_page : P) (part : S → Flat P) (put : S → Flat P → S)
    (back : (s : S) → put s (part s) ≡ s) (s : S) (n : ℕ) where
  pub part_get :
      n * page_size < (part s).length
      → (part_pages part put (flat_pages zero_page)).get_page (page_addr n) s ≡ some (tt, s)
  unfolding flat_pages
  part_get below =
      within-same part put ((flat_pages zero_page).get_page (page_addr n)) s tt (back s)
        (flat_get-known zero_page (part s) n below)

  pub part_load :
      n * page_size < (part s).length
      → (part_pages part put (flat_pages zero_page)).load (page_addr n) s
        ≡ some ((part s).page n, s)
  unfolding flat_pages
  part_load below =
      within-same part put ((flat_pages zero_page).load (page_addr n)) s ((part s).page n) (back s)
        (flat_load-known zero_page (part s) n below)

  pub part_release :
      (part_pages part put (flat_pages zero_page)).release (page_addr n) s ≡ some (tt, s)
  unfolding flat_pages
  part_release =
      within-same part put ((flat_pages zero_page).release (page_addr n)) s tt (back s) refl
