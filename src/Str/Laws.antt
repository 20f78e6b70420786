-- ===== src/Str/Laws.antt =====
-- What src/str.c relies on of the table under it, and the strings that a table holds.
use my_jql.Prelude.{ℕ, ◌≤◌, ◌<◌, pos, ◌≡◌, some, List, [], ◌∷◌, ◌++◌, length}
use my_jql.Table.{Rid, Items}
use my_jql.Str.{StringChunk, encode_chunk, no_rid, str_chunk_max_len}
use my_jql.Str.Codec.{FitsRid}

-- `Holds s rid bytes`: in state `s` the item with that id has those bytes. A read returns them, and
-- leaves all items alone.
pub record HasItems {S : Type 0} (table : Items S) : Type 1 where
  pub Holds : S → Rid → List ℕ → Type 0
  pub read_holds :
      (s : S) (rid : Rid) (bytes : List ℕ)
      → Holds s rid bytes
      → (s' : S) × (table.read rid s ≡ some (bytes, s'))
        × ((r : Rid) (other : List ℕ) → Holds s r other → Holds s' r other)

module _ {S : Type 0} {table : Items S} (h : HasItems table) where
  open h use {Holds}

  abbrev pub Preserves : S → S → Type 0
  Preserves s s' = (r : Rid) (bytes : List ℕ) → Holds s r bytes → Holds s' r bytes

  abbrev pub chunk_of : Rid → List ℕ → StringChunk
  chunk_of rid chars = record { rid = rid; size = length chars; chars = chars }

  -- From `rid` the items are the chunks `chunks`, each linked to the next, the last to none.
  abbrev pub Chain : S → Rid → List (List ℕ) → Type 0
  Chain s rid [] = ⊥
  Chain s rid (xs ∷ []) =
      Holds s rid (encode_chunk (chunk_of no_rid xs))
      × (0 < length xs)
      × (length xs ≤ str_chunk_max_len)
  Chain s rid (xs ∷ ys ∷ chunks) =
      (next : Rid) × (i : ℕ) × Holds s rid (encode_chunk (chunk_of next xs))
      × (0 < length xs)
      × (length xs ≤ str_chunk_max_len)
      × FitsRid next
      × (next.idx ≡ pos i)
      × Chain s next (ys ∷ chunks)

  abbrev pub joined : List (List ℕ) → List ℕ
  joined [] = []
  joined (xs ∷ chunks) = xs ++ joined chunks

  pub Chain-Preserves :
      (s s' : S) (rid : Rid) (chunks : List (List ℕ))
      → Preserves s s'
      → Chain s rid chunks
      → Chain s' rid chunks
  Chain-Preserves s s' rid [] keep c = c
  Chain-Preserves s s' rid (xs ∷ []) keep c = (keep _ _ c.0, c.1, c.2)
  Chain-Preserves s s' rid (xs ∷ ys ∷ chunks) keep (next, i, held, some_char, fits, ok, at, c) = (
    next,
    i,
    keep _ _ held,
    some_char,
    fits,
    ok,
    at,
    Chain-Preserves s s' next (ys ∷ chunks) keep c,
  )
