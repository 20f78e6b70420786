-- ===== src/Str.antt =====
-- src/str.c and include/str.h: strings as chains of chunks, each an item of a table.
pub mod Codec
pub mod Laws
pub mod Load
pub mod Compare
mod Tests
use my_jql.Prelude.{
  ℕ, zero, suc, ◌+◌, ◌-◌, ◌*◌, ◌/◌, ◌%◌, ◌^◌, ℤ, pos, negsuc, minus_one, ◌=ℤ◌, Bool, true, false,
  ◌&&◌, Option, none, some, List, [], ◌∷◌, ◌++◌, ◌==◌, leb, ltb, if◌then◌else◌, length, get_or,
  take, drop,
}
use my_jql.Exec.{Exec, pure, undefined, ◌>>=◌, ◌>>◌}
use my_jql.Table.{Rid, Items}

abbrev pub str_chunk_max_size : ℕ
str_chunk_max_size = 32

-- `sizeof(RID) + sizeof(short)`
abbrev pub str_chunk_header : ℕ
str_chunk_header = 12

abbrev pub str_chunk_max_len : ℕ
str_chunk_max_len = str_chunk_max_size - str_chunk_header

abbrev pub calc_str_chunk_size : ℕ → ℕ
calc_str_chunk_size len = len + str_chunk_header

pub record StringChunk : Type 0 where
  pub rid : Rid
  pub size : ℕ
  pub chars : List ℕ

-- A signed integer of `w` values as its bit pattern, and back.
abbrev pub to_word : ℕ → ℤ → ℕ
to_word w (pos n) = n % w
to_word w (negsuc n) = w - 1 - n % w

abbrev pub from_word : ℕ → ℕ → ℤ
from_word w n = if ltb n (w / 2) then pos n else negsuc (w - 1 - n)

-- The `n` low bytes of a number, the lowest first, and back.
unfoldable pub to_bytes : (n value : ℕ) → List ℕ
to_bytes zero value = []
to_bytes (suc n) value = value % 256 ∷ to_bytes n (value / 256)

unfoldable pub from_bytes : (n : ℕ) → List ℕ → ℕ
from_bytes zero bytes = 0
from_bytes (suc n) [] = 0
from_bytes (suc n) (b ∷ bytes) = b + 256 * from_bytes n bytes

-- The bytes that a `RID` and a `StringChunk` occupy.
unfoldable pub encode_rid : Rid → List ℕ
encode_rid rid =
    to_bytes 8 (to_word (2 ^ 64) rid.block_addr) ++ to_bytes 2 (to_word (2 ^ 16) rid.idx)

unfoldable pub decode_rid : List ℕ → Rid
decode_rid bytes = record {
  block_addr = from_word (2 ^ 64) (from_bytes 8 bytes);
  idx = from_word (2 ^ 16) (from_bytes 2 (drop 8 bytes));
}

unfoldable pub encode_chunk : StringChunk → List ℕ
encode_chunk chunk = encode_rid chunk.rid ++ (to_bytes 2 chunk.size ++ chunk.chars)

unfoldable pub decode_chunk : List ℕ → StringChunk
decode_chunk bytes = record {
  rid = decode_rid bytes;
  size = from_bytes 2 (drop 10 bytes);
  chars = drop str_chunk_header bytes;
}

pub record StringRecord : Type 0 where
  pub chunk : StringChunk
  pub idx : ℕ

abbrev pub no_rid : Rid
no_rid = record { block_addr = minus_one; idx = minus_one }

unfoldable pub has_next_char : StringRecord → Bool
has_next_char record' =
    if record'.chunk.size == record'.idx
    then (if record'.chunk.rid.idx =ℤ minus_one then false else true)
    else true

-- The tail of a string of `size` chars: what `extra_len` is set to.
abbrev pub extra_len : ℕ → ℕ
extra_len size =
    if size % str_chunk_max_len == 0 then str_chunk_max_len else size % str_chunk_max_len

-- A count as it comes back from a `short`, where the loop over it makes no round below zero.
abbrev pub short_rounds : ℕ → ℕ
short_rounds n = if ltb (n % 2 ^ 16) (2 ^ 15) then n % 2 ^ 16 else 0

-- `data[from + i]` for `i < n`.
abbrev pub segment : List ℕ → (from n : ℕ) → List ℕ
segment chars from n = take n (drop from chars)

module _ {S : Type 0} (table : Items S) where
  open table use {read, insert, delete}

  unfoldable pub read_string : Rid → Exec S StringRecord
  read_string rid = do bytes ← read rid; pure (record { chunk = decode_chunk bytes; idx = 0 })

  -- The char at `idx` of the current chunk, and the step to the next index.
  abbrev pub take_char : StringRecord → Exec S (ℕ × StringRecord)
  take_char r = pure (get_or r.chunk.chars r.idx 0, record r { idx = r.idx + 1 })

  unfoldable pub next_char : StringRecord → Exec S (ℕ × StringRecord)
  next_char r =
      if r.chunk.size == r.idx
      then (if r.chunk.rid.idx =ℤ minus_one
          then pure (0, r)
          else (do next ← read_string r.chunk.rid; take_char next))
      else take_char r

  -- The chunks in front of the tail, the last of them first: chunk `k` links to `rid`.
  unfoldable pub write_chunks : List ℕ → (k : ℕ) → Rid → Exec S Rid
  write_chunks chars zero rid = pure rid
  write_chunks chars (suc k) rid = do
    let chunk : StringChunk = record {
      rid = rid;
      size = str_chunk_max_len;
      chars = segment chars (k * str_chunk_max_len) str_chunk_max_len;
    }
    rid' ← insert (encode_chunk chunk) str_chunk_max_size
    write_chunks chars k rid'

  -- With `size = 0` the tail's loop reads in front of `data`.
  unfoldable pub write_string : List ℕ → (size : ℕ) → Exec S Rid
  write_string chars size = if ltb size (extra_len size) then undefined else (do
    let tail : StringChunk = record {
      rid = no_rid;
      size = extra_len size;
      chars = segment chars (size - extra_len size) (extra_len size);
    }
    rid ← insert (encode_chunk tail) (calc_str_chunk_size (extra_len size))
    write_chunks chars (short_rounds ((size - extra_len size) / str_chunk_max_len)) rid)

  -- The fuel bounds the chunks of the string.
  unfoldable pub delete_string : (fuel : ℕ) → Rid → Exec S (Unit {0})
  delete_string zero rid = undefined
  delete_string (suc fuel) rid = elim (rid.idx =ℤ minus_one) [
    | true ↦ pure tt
    | false ↦ (do bytes ← read rid; delete rid; delete_string fuel (decode_rid bytes))
  ]

  -- The chars that are stored in `dest`, at most `room` of them.
  unfoldable pub load_chars : (room : ℕ) → StringRecord → Exec S (List ℕ)
  load_chars zero r = pure []
  load_chars (suc room) r = elim (has_next_char r) [
    | false ↦ pure []
    | true ↦ (do (c, r') ← next_char r; rest ← load_chars room r'; pure (c ∷ rest))
  ]

  -- `dest` up to the size that is returned, and behind it a 0 where there is room.
  unfoldable pub load_string : StringRecord → (max_size : ℕ) → Exec S (List ℕ)
  load_string r max_size = load_chars max_size r
