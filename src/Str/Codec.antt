-- ===== src/Str/Codec.antt =====
-- The bytes of a chunk of src/str.c: what is written is what is read.
use my_jql.Prelude.{
  ℕ, zero, suc, ◌+◌, ◌*◌, ◌/◌, ◌^◌, ◌<◌, ℤ, pos, negsuc, ◌≡◌, refl, ap, ◌∙◌, List, ◌++◌, arith,
  drop, length,
}
use mathlib.Core.List.{append_assoc}
use native.Mathlib.Nat.{pow-suc}
use my_jql.Table.{Rid}
use my_jql.Str.{
  StringChunk, to_word, from_word, to_bytes, from_bytes, encode_rid, decode_rid, encode_chunk,
  decode_chunk, str_chunk_header,
}

-- A signed integer of the range from `- half` to `half - 1`.
abbrev pub Fits : ℕ → ℤ → Type 0
Fits half (pos n) = n < half
Fits half (negsuc n) = n < half

abbrev pub FitsRid : Rid → Type 0
FitsRid rid = Fits (2 ^ 63) rid.block_addr × Fits (2 ^ 15) rid.idx

pub from_bytes-to_bytes :
    (n v : ℕ) (rest : List ℕ) → v < 256 ^ n → from_bytes n (to_bytes n v ++ rest) ≡ v
unfolding from_bytes to_bytes
from_bytes-to_bytes zero v rest h = omega arith
from_bytes-to_bytes (suc n) v rest h =
    let h' : v < 256 ^ n * 256 = rw pow-suc at h in
    omega (arith, from_bytes-to_bytes n (v / 256) rest (omega arith))

drop-to_bytes : (n v : ℕ) (rest : List ℕ) → drop n (to_bytes n v ++ rest) ≡ rest
unfolding to_bytes
drop-to_bytes zero v rest = refl
drop-to_bytes (suc n) v rest = drop-to_bytes n (v / 256) rest

word64 : (z : ℤ) → Fits (2 ^ 63) z → from_word (2 ^ 64) (to_word (2 ^ 64) z) ≡ z
word64 (pos n) h = ground arith
word64 (negsuc n) h = ground arith

word16 : (z : ℤ) → Fits (2 ^ 15) z → from_word (2 ^ 16) (to_word (2 ^ 16) z) ≡ z
word16 (pos n) h = ground arith
word16 (negsuc n) h = ground arith

to_word64-lt : (z : ℤ) → to_word (2 ^ 64) z < 256 ^ 8
to_word64-lt (pos n) = omega arith
to_word64-lt (negsuc n) = omega arith

to_word16-lt : (z : ℤ) → to_word (2 ^ 16) z < 256 ^ 2
to_word16-lt (pos n) = omega arith
to_word16-lt (negsuc n) = omega arith

rid_ext :
    (r : Rid) {a i : ℤ} → a ≡ r.block_addr → i ≡ r.idx → record { block_addr = a; idx = i } ≡ r
rid_ext r p q = λ k. record { block_addr = p k; idx = q k }

pub decode_rid-encode_rid :
    (rid : Rid) (rest : List ℕ) → FitsRid rid → decode_rid (encode_rid rid ++ rest) ≡ rid
unfolding decode_rid encode_rid
decode_rid-encode_rid rid rest fits =
    let a = to_word (2 ^ 64) rid.block_addr in
    let i = to_word (2 ^ 16) rid.idx in
    rw (append_assoc (to_bytes 8 a) (to_bytes 2 i) rest) (
      rid_ext rid
        (ap (from_word (2 ^ 64))
            (from_bytes-to_bytes 8 a (to_bytes 2 i ++ rest) (to_word64-lt rid.block_addr))
          ∙ word64 rid.block_addr fits.0)
        (ap (from_word (2 ^ 16)) (
            ap (from_bytes 2) (drop-to_bytes 8 a (to_bytes 2 i ++ rest))
            ∙ from_bytes-to_bytes 2 i rest (to_word16-lt rid.idx))
          ∙ word16 rid.idx fits.1))

pub drop-encode_rid : (rid : Rid) (rest : List ℕ) → drop 10 (encode_rid rid ++ rest) ≡ rest
unfolding encode_rid to_bytes
drop-encode_rid rid rest = refl

drop-encode_chunk :
    (rid : Rid) (size : ℕ) (rest : List ℕ)
    → drop str_chunk_header (encode_rid rid ++ (to_bytes 2 size ++ rest)) ≡ rest
unfolding encode_rid to_bytes
drop-encode_chunk rid size rest = refl

-- A chunk whose fields fit their types is read back as it was written.
pub decode_chunk-encode_chunk :
    (chunk : StringChunk)
    → FitsRid chunk.rid
    → chunk.size < 2 ^ 16
    → decode_chunk (encode_chunk chunk) ≡ chunk
unfolding decode_chunk encode_chunk
decode_chunk-encode_chunk chunk fits small =
    let rid = decode_rid-encode_rid chunk.rid (to_bytes 2 chunk.size ++ chunk.chars) fits in
    let size =
      ap (from_bytes 2) (drop-encode_rid chunk.rid (to_bytes 2 chunk.size ++ chunk.chars))
      ∙ from_bytes-to_bytes 2 chunk.size chunk.chars (omega arith) in
    let chars = drop-encode_chunk chunk.rid chunk.size chunk.chars in
    λ k. record { rid = rid k; size = size k; chars = chars k }

pub length-to_bytes : (n v : ℕ) → length (to_bytes n v) ≡ n
unfolding to_bytes
length-to_bytes zero v = refl
length-to_bytes (suc n) v = ap suc (length-to_bytes n (v / 256))

pub length-encode_chunk :
    (chunk : StringChunk) → length (encode_chunk chunk) ≡ length chunk.chars + str_chunk_header
unfolding encode_chunk encode_rid to_bytes
length-encode_chunk chunk = omega arith
