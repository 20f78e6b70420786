-- ===== src/Myjql/Get.antt =====
-- `myjql_get` of src/myjql.c over the two tables of src/table.c, from what the search has returned.
use my_jql.Prelude.{ℕ, ◌≡◌, refl, sym, ap, ◌∙◌, true, false, Option, none, some, List, take}
use mathlib.Core.Option
use my_jql.Exec.{pure, ◌>>=◌, bind-some}
use my_jql.Block.{Block}
use my_jql.HashMap.{Words}
use my_jql.Pages.{Pages, Flat}
use my_jql.Table.{Rid}
use my_jql.Table.Read.{still-HasItems}
use my_jql.Str.{read_string, load_string}
use my_jql.Str.Laws.{joined}
use my_jql.Str.Load.{load_string-take}
use my_jql.Myjql.{Record, Index, is_failed, read_record, myjql_get}
use my_jql.Myjql.Rows.{
  IsRecord, IsString, tbl_rec, tbl_str, read_record-IsRecord, read_string-IsString, same_state,
}

module _ {S : Type 0} (zero_page : Block) (rec_part str_part : S → Flat Block)
    (put_rec put_str : S → Flat Block → S) (back_rec : (s : S) → put_rec s (rec_part s) ≡ s)
    (back_str : (s : S) → put_str s (str_part s) ≡ s) (rec_fsm str_fsm : Pages S Words)
    (fuel : ℕ) where
  -- The row is the one of a failed search, or it names a record whose value is the string `chars`.
  abbrev pub IsValue : S → Rid → Option (List ℕ) → Type 0
  IsValue s rid none = is_failed rid ≡ true
  IsValue s rid (some chars) =
      (is_failed rid ≡ false)
      × (r : Record) × IsRecord zero_page rec_part put_rec back_rec rec_fsm fuel s rid r
      × (cs : List (List ℕ)) × IsString zero_page str_part put_str back_str str_fsm fuel s r.value
          cs
      × (joined (still-HasItems zero_page str_part put_str back_str str_fsm fuel s) cs ≡ chars)

  -- The tables of records and of strings are files in memory, and the search for the key has returned
  -- a row. If that is the row of a failed search, `myjql_get` returns -1. If it names a record whose
  -- value is stored, `myjql_get` returns the first `max_size` chars of the value. The state is as it
  -- was behind the search.
  pub myjql_get-IsValue :
      (bp_idx : Index S) (rounds : ℕ) (s s' : S) (rid : Rid) (key : List ℕ) (key_len max_size : ℕ)
      (value : Option (List ℕ))
      → bp_idx.search key key_len s ≡ some (rid, s')
      → IsValue s' rid value
      → myjql_get bp_idx
          (tbl_rec zero_page rec_part str_part put_rec put_str back_rec back_str rec_fsm str_fsm
            fuel)
          (tbl_str zero_page rec_part str_part put_rec put_str back_rec back_str rec_fsm str_fsm
            fuel)
          rounds
          key
          key_len
          max_size
          s
        ≡ some (Option.map (take max_size) value, s')
  unfolding myjql_get
  myjql_get-IsValue bp_idx rounds s s' rid key key_len max_size none found failed =
      bind-some (bp_idx.search key key_len) _ s s' rid found ∙ rw failed refl
  myjql_get-IsValue bp_idx rounds s s' rid key key_len max_size (some chars) found
        (ok, r, rec, cs, str, same_chars) =
      let records =
        tbl_rec zero_page rec_part str_part put_rec put_str back_rec back_str rec_fsm str_fsm
          fuel in
      let strings =
        tbl_str zero_page rec_part str_part put_rec put_str back_rec back_str rec_fsm str_fsm
          fuel in
      let h = still-HasItems zero_page str_part put_str back_str str_fsm fuel s' in
      let load = read_string strings r.value >>= λ q. load_string strings q max_size in
      let (s'', loads, keep) = load_string-take h s' r.value cs max_size str in
      let first =
        read_string-IsString zero_page str_part put_str back_str str_fsm fuel s' r.value cs str in
      let same =
        same_state zero_page str_part put_str back_str str_fsm fuel s' s'' r.value cs str keep in
      let loaded : load_string strings first.string max_size s' ≡ some (take max_size chars, s') =
        sym (
          bind-some (read_string strings r.value) (λ q. load_string strings q max_size) s' s'
            first.string first.reads)
        ∙ loads
        ∙ ap (λ t. some (take max_size (joined h cs), t)) same
        ∙ ap (λ t. some (take max_size t, s')) same_chars in
      bind-some (bp_idx.search key key_len) _ s s' rid found
      ∙ rw ok (
          bind-some (read_record records rid) _ s' s' r
            (read_record-IsRecord zero_page rec_part put_rec back_rec rec_fsm fuel s' rid r rec)
          ∙ bind-some (read_string strings r.value) _ s' s' first.string first.reads
          ∙ bind-some (load_string strings first.string max_size) (λ chars. pure (some chars)) s' s'
              (take max_size chars) loaded)
