-- ===== src/Myjql/Rows.antt =====
-- `row_row_cmp` and `ptr_row_cmp` of src/myjql.c over the two tables of src/table.c.
use my_jql.Prelude.{
  ℕ, ◌<◌, ◌≡◌, refl, sym, ap, ◌∙◌, some, List, [], ◌∷◌, take, length, false, ◌==◌, arith,
}
use mathlib.Core.List.{append-nil}
use my_jql.Exec.{pure, ◌>>=◌, bind-some}
use my_jql.Block.{Block}
use my_jql.HashMap.{Words}
use my_jql.Pages.{Pages, Flat}
use my_jql.Table.{Rid, Items, table_items}
use my_jql.Table.Read.{IsItem, data_pool, table_read-IsItem, still-HasItems}
use my_jql.Str.{StringRecord, encode_rid, decode_rid, read_string}
use my_jql.Str.Codec.{FitsRid, decode_rid-encode_rid, drop-encode_rid}
use my_jql.Str.Laws.{Preserves, Chain, joined, chunk_of}
use my_jql.Str.Load.{Chain-Opened}
use my_jql.Str.Compare.{compare_chars, compare_string_record, compare_string_record-chars}
use my_jql.Myjql.{
  Record, encode_record, decode_record, read_record, row_row_cmp, ptr_row_cmp, compare_key,
}
use my_jql.Myjql.Compare.{compare_key-chars}

decode_record-encode_record :
    (r : Record) → FitsRid r.key → FitsRid r.value → decode_record (encode_record r) ≡ r
unfolding decode_record encode_record
decode_record-encode_record r fits fits' =
    let key = decode_rid-encode_rid r.key (encode_rid r.value) fits in
    let value =
      ap decode_rid
        (drop-encode_rid r.key (encode_rid r.value) ∙ sym (append-nil (encode_rid r.value)))
      ∙ decode_rid-encode_rid r.value [] fits' in
    λ k. record { key = key k; value = value k }

module _ {S : Type 0} (zero_page : Block) (part : S → Flat Block) (put : S → Flat Block → S)
    (back : (s : S) → put s (part s) ≡ s) (fsm_pool : Pages S Words) (fuel : ℕ) where
  abbrev pub file_table : Items S
  file_table = table_items (data_pool zero_page part put back fsm_pool fuel) fsm_pool fuel

  -- In state `s` the table has that record, whose ids fit their fields.
  abbrev pub IsRecord : S → Rid → Record → Type 0
  IsRecord s rid r = IsItem (part s) rid (encode_record r) × FitsRid r.key × FitsRid r.value

  -- In state `s` the table has that string, in chunks.
  abbrev pub IsString : S → Rid → List (List ℕ) → Type 0
  IsString s rid cs = Chain (still-HasItems zero_page part put back fsm_pool fuel s) s rid cs

  pub read_record-IsRecord :
      (s : S) (rid : Rid) (r : Record)
      → IsRecord s rid r
      → read_record file_table rid s ≡ some (r, s)
  unfolding read_record table_items
  read_record-IsRecord s rid r (item, fits, fits') =
      bind-some (file_table.read rid) (λ bytes. pure (decode_record bytes)) s s (encode_record r)
        (table_read-IsItem zero_page part put back fsm_pool fuel s rid (encode_record r) item)
      ∙ ap (λ r. some (r, s)) (decode_record-encode_record r fits fits')

  pub same_state :
      (s s' : S) (rid : Rid) (cs : List (List ℕ))
      → IsString s rid cs
      → Preserves (still-HasItems zero_page part put back fsm_pool fuel s) s s'
      → s' ≡ s
  unfolding still-HasItems
  same_state s s' rid [] c keep = absurd c
  same_state s s' rid (xs ∷ []) c keep = (keep _ _ c.0).0
  same_state s s' rid (xs ∷ ys ∷ cs) (next, i, held, some_char, fits, ok, at, c) keep =
      (keep _ _ held).0

  -- The first chunk of a string has been read, and the state is as it was.
  pub record First (s : S) (rid : Rid) : Type 0 where
    pub string : StringRecord
    pub reads : read_string file_table rid s ≡ some (string, s)
    pub some_char : (string.chunk.size == 0) ≡ false

  pub read_string-IsString :
      (s : S) (rid : Rid) (cs : List (List ℕ)) → IsString s rid cs → First s rid
  read_string-IsString s rid [] c = absurd c
  read_string-IsString s rid (xs ∷ cs) c =
      let h = still-HasItems zero_page part put back fsm_pool fuel s in
      let o = Chain-Opened h s rid xs cs c in
      let string : StringRecord = record { chunk = chunk_of h o.next xs; idx = 0 } in
      record {
        string = string;
        reads = o.reads ∙ ap (λ t. some (string, t)) (same_state s o.after rid (xs ∷ cs) c o.keeps);
        some_char = ground (arith, o.some_char);
      }

module _ {S : Type 0} (zero_page : Block) (rec_part str_part : S → Flat Block)
    (put_rec put_str : S → Flat Block → S) (back_rec : (s : S) → put_rec s (rec_part s) ≡ s)
    (back_str : (s : S) → put_str s (str_part s) ≡ s) (rec_fsm str_fsm : Pages S Words)
    (fuel : ℕ) where
  abbrev pub tbl_rec : Items S
  tbl_rec = file_table zero_page rec_part put_rec back_rec rec_fsm fuel

  abbrev pub tbl_str : Items S
  tbl_str = file_table zero_page str_part put_str back_str str_fsm fuel

  -- In state `s` there is a record at `rid` whose key is the string of the chunks `cs`.
  abbrev pub HasKey : S → Rid → List (List ℕ) → Type 0
  HasKey s rid cs =
      (r : Record) × IsRecord zero_page rec_part put_rec back_rec rec_fsm fuel s rid r
      × IsString zero_page str_part put_str back_str str_fsm fuel s r.key cs

  -- The tables of records and of strings are files in memory. `row_row_cmp` of the ids of two records
  -- whose keys are stored returns the lexicographic order of the keys, with fuel for the chars of the
  -- first, and leaves the state as it was.
  pub row_row_cmp-chars :
      (s : S) (rid1 rid2 : Rid) (cs ds : List (List ℕ)) (rounds : ℕ)
      → HasKey s rid1 cs
      → HasKey s rid2 ds
      → let joined_chars =
          joined (still-HasItems zero_page str_part put_str back_str str_fsm fuel s) in
        length (joined_chars cs) < rounds
        → row_row_cmp tbl_rec tbl_str rounds rid1 rid2 s
          ≡ some (compare_chars (joined_chars cs) (joined_chars ds), s)
  unfolding row_row_cmp compare_string_record
  row_row_cmp-chars s rid1 rid2 cs ds rounds (r1, rec1, str1) (r2, rec2, str2) enough =
      let h = still-HasItems zero_page str_part put_str back_str str_fsm fuel s in
      let first =
        read_string-IsString zero_page str_part put_str back_str str_fsm fuel s r1.key cs str1 in
      let second =
        read_string-IsString zero_page str_part put_str back_str str_fsm fuel s r2.key ds str2 in
      let (s', compared, keep) =
        compare_string_record-chars h s r1.key r2.key cs ds rounds str1 str2 enough in
      let same =
        same_state zero_page str_part put_str back_str str_fsm fuel s s' r1.key cs str1 keep in
      bind-some (read_record tbl_rec rid1) _ s s r1
        (read_record-IsRecord zero_page rec_part put_rec back_rec rec_fsm fuel s rid1 r1 rec1)
      ∙ bind-some (read_string tbl_str r1.key) _ s s first.string first.reads
      ∙ bind-some (read_record tbl_rec rid2) _ s s r2
          (read_record-IsRecord zero_page rec_part put_rec back_rec rec_fsm fuel s rid2 r2 rec2)
      ∙ sym (
          bind-some (read_string tbl_str r1.key)
            (λ a. read_string tbl_str r2.key >>= λ b. compare_string_record tbl_str rounds a b) s s
            first.string first.reads)
      ∙ compared
      ∙ ap (λ t. some (compare_chars (joined h cs) (joined h ds), t)) same

  -- The same tables. `ptr_row_cmp` of a key and the id of a record whose key is stored returns the
  -- lexicographic order of the first `key_len` chars of the key and the stored one, and leaves the state as it was.
  pub ptr_row_cmp-chars :
      (s : S) (key : List ℕ) (key_len : ℕ) (rid : Rid) (cs : List (List ℕ))
      → HasKey s rid cs
      → ptr_row_cmp tbl_rec tbl_str key key_len rid s
        ≡ some (
          compare_chars
              (take key_len key)
              (joined (still-HasItems zero_page str_part put_str back_str str_fsm fuel s) cs),
          s,
        )
  unfolding ptr_row_cmp
  ptr_row_cmp-chars s key key_len rid cs (r, rec, str) =
      let h = still-HasItems zero_page str_part put_str back_str str_fsm fuel s in
      let first =
        read_string-IsString zero_page str_part put_str back_str str_fsm fuel s r.key cs str in
      let (s', compared, keep) = compare_key-chars h s r.key cs (take key_len key) str in
      let same =
        same_state zero_page str_part put_str back_str str_fsm fuel s s' r.key cs str keep in
      bind-some (read_record tbl_rec rid) _ s s r
        (read_record-IsRecord zero_page rec_part put_rec back_rec rec_fsm fuel s rid r rec)
      ∙ bind-some (read_string tbl_str r.key) _ s s first.string first.reads
      ∙ rw first.some_char refl
      ∙ sym (
          bind-some (read_string tbl_str r.key) (compare_key tbl_str (take key_len key)) s s
            first.string first.reads)
      ∙ compared
      ∙ ap (λ t. some (compare_chars (take key_len key) (joined h cs), t)) same
