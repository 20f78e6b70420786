-- ===== src/FileIo.antt =====
-- src/file_io.c and include/file_io.h: files of whole pages over the C library's streams.
use my_jql.Prelude.{
  ℕ, ◌+◌, ◌-◌, ◌*◌, ◌/◌, ◌%◌, max, ℤ, pos, negsuc, Bool, false, ◌&&◌, Option, none, some, ◌==◌, ltb,
  leb, if◌then◌else◌,
}

abbrev pub page_size : ℕ
page_size = 128

pub data FileIoResult : Type 0 where
  file_io_success file_io_failed invalid_len invalid_addr addr_out_of_range : FileIoResult

-- `addr & PAGE_MASK`, in two's complement.
abbrev pub page_offset : ℤ → ℕ
page_offset (pos n) = n % page_size
page_offset (negsuc n) = page_size - 1 - n % page_size

-- A stream: the pages of its file by number, the file's size in bytes, the position, and whether
-- accesses succeed. `NULL` and a closed stream are streams that do not work.
pub record File (P : Type 0) : Type 0 where
  pub content : ℕ → P
  pub size : ℕ
  pub position : ℕ
  pub working : Bool

-- `FileInfo`
pub record FileInfo (P : Type 0) : Type 0 where
  pub fp : File P
  pub length : ℕ

module _ {P : Type 0} where
  -- `fseek(fp, offset, SEEK_SET)`; `none` stands for a result other than 0.
  unfoldable pub fseek : File P → ℕ → Option (File P)
  fseek fp offset = if fp.working then some (record fp { position = offset }) else none

  -- `fread(page, PAGE_SIZE, 1, fp)` at a page boundary; `none` stands for a short read.
  unfoldable pub fread : File P → Option P
  fread fp =
      if fp.working && leb (fp.position + page_size) fp.size
      then some (fp.content (fp.position / page_size))
      else none

  -- `fclose(fp)`, which leaves the file on the disk.
  unfoldable pub fclose : File P → File P
  fclose fp = record fp { working = false }

  unfoldable pub close_file : FileInfo P → FileIoResult × FileInfo P
  unfolding fclose
  close_file file = (file_io_success, record { fp = fclose file.fp; length = 0 })

  -- The part of `open_file` behind `fopen`: `length = ftell(fp)` at the end of the file.
  unfoldable pub measure_file : FileInfo P → File P → FileIoResult × FileInfo P
  unfolding close_file
  measure_file file fp =
      if fp.working
      then (let measured : FileInfo P = record { fp = fp; length = fp.size } in
          if measured.length % page_size == 0
          then (file_io_success, measured)
          else (invalid_len, (close_file measured).1))
      else (file_io_failed, record file { fp = fp })

  -- `existing` is what `fopen(filename, "rb+")` returns, `created` what `fopen(filename, "wb+")`
  -- returns, and `file` what `*file` holds before the call.
  unfoldable pub open_file :
      FileInfo P → (existing created : Option (File P)) → FileIoResult × FileInfo P
  unfolding measure_file fclose
  open_file file (some fp) created = measure_file file fp
  open_file file none (some fp) = measure_file file fp
  open_file file none none = (file_io_failed, record file { fp = fclose file.fp })

  -- The status, and the page that was read if it was.
  unfoldable pub read_at : FileInfo P → ℕ → FileIoResult × Option P
  unfolding fseek fread
  read_at file addr = elim (fseek file.fp addr) [
    | none ↦ (file_io_failed, none)
    | some fp ↦ elim (fread fp) [
      | none ↦ (file_io_failed, none)
      | some page ↦ (file_io_success, some page)
    ]
  ]

  unfoldable pub read_page : FileInfo P → ℤ → FileIoResult × Option P
  unfolding read_at
  read_page file (negsuc n) =
      if page_offset (negsuc n) == 0 then (addr_out_of_range, none) else (invalid_addr, none)
  read_page file (pos addr) =
      if page_offset (pos addr) == 0
      then (if leb file.length addr then (addr_out_of_range, none) else read_at file addr)
      else (invalid_addr, none)

module _ {P : Type 0} (zero_page : P) where
  -- `fwrite(page, PAGE_SIZE, 1, fp)` at a page boundary. Behind the old end of the file, the pages
  -- that the write jumps over read as zeros.
  unfoldable pub fwrite : File P → P → Option (File P)
  fwrite fp page =
      if fp.working
      then some (record fp {
        content = λ m.
            if m == fp.position / page_size
            then page
            else if leb fp.size (m * page_size) && ltb (m * page_size) fp.position
            then zero_page
            else fp.content m;
        size = max fp.size (fp.position + page_size);
        position = fp.position + page_size;
      })
      else none

  unfoldable pub write_at : P → FileInfo P → ℕ → FileIoResult × FileInfo P
  unfolding fseek fwrite
  write_at page file addr = elim (fseek file.fp addr) [
    | none ↦ (file_io_failed, file)
    | some fp ↦ elim (fwrite fp page) [
      | none ↦ (file_io_failed, file)
      | some fp' ↦ (
        file_io_success,
        record {
          fp = fp';
          length = if addr == file.length then file.length + page_size else file.length;
        },
      )
    ]
  ]

  unfoldable pub write_page : P → FileInfo P → ℤ → FileIoResult × FileInfo P
  unfolding write_at
  write_page page file (negsuc n) =
      if page_offset (negsuc n) == 0 then (addr_out_of_range, file) else (invalid_addr, file)
  write_page page file (pos addr) =
      if page_offset (pos addr) == 0
      then (if ltb file.length addr then (addr_out_of_range, file) else write_at page file addr)
      else (invalid_addr, file)
