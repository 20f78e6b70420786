-- ===== src/Str/Load.antt =====
-- `read_string`, `next_char` and `load_string` of src/str.c walk the chunks of a string in order.
use my_jql.Prelude.{
  ℕ, zero, suc, ◌+◌, ◌≤◌, ◌<◌, pos, minus_one, ◌=ℤ◌, ◌≡◌, ◌≢◌, refl, ap, sym, ◌∙◌, some, List, [],
  ◌∷◌, ◌++◌, length, drop, take, get_or, drop-all, drop-get_or, true, false, arith, ◌==◌,
}
use native.Mathlib.Decide.{ℕ_discrete}
use my_jql.Exec.{◌>>=◌}
use my_jql.Table.{Rid, Items}
use my_jql.Str.{
  StringRecord, encode_chunk, no_rid, read_string, next_char, has_next_char, load_chars,
  load_string,
}
use my_jql.Str.Codec.{FitsRid, decode_chunk-encode_chunk}
use my_jql.Str.Laws.{HasItems, Preserves, chunk_of, Chain, joined, Chain-Preserves}

module _ {S : Type 0} {table : Items S} (h : HasItems table) where
  open h use {Holds, read_holds}

  -- A chunk whose successor is `rid` is followed by the chunks `chunks`.
  abbrev pub Linked : S → Rid → List (List ℕ) → Type 0
  Linked s rid [] = rid.idx ≡ minus_one
  Linked s rid (xs ∷ chunks) = (i : ℕ) × (rid.idx ≡ pos i) × Chain h s rid (xs ∷ chunks)

  pub Linked-Preserves :
      (s s' : S) (rid : Rid) (chunks : List (List ℕ))
      → Preserves h s s'
      → Linked s rid chunks
      → Linked s' rid chunks
  Linked-Preserves s s' rid [] keep e = e
  Linked-Preserves s s' rid (xs ∷ chunks) keep (i, e, c) =
      (i, e, Chain-Preserves h s s' rid (xs ∷ chunks) keep c)

  -- The first chunk of a string has been read.
  pub record Opened (s : S) (rid : Rid) (xs : List ℕ) (chunks : List (List ℕ)) : Type 0 where
    pub next : Rid
    pub after : S
    pub reads :
        read_string table rid s ≡ some (record { chunk = chunk_of h next xs; idx = 0 }, after)
    pub keeps : Preserves h s after
    pub linked : Linked after next chunks
    pub some_char : 0 < length xs

  open_chunk :
      (s : S) (rid next : Rid) (xs : List ℕ) (chunks : List (List ℕ))
      → Holds s rid (encode_chunk (chunk_of h next xs))
      → FitsRid next
      → 0 < length xs
      → length xs ≤ 20
      → Linked s next chunks
      → Opened s rid xs chunks
  unfolding read_string
  open_chunk s rid next xs chunks held fits_rid some_char fits link =
      let (s', e, keep) = read_holds s rid (encode_chunk (chunk_of h next xs)) held in
      record {
        next = next;
        after = s';
        reads =
            rw (e, ◌>>=◌, decode_chunk-encode_chunk (chunk_of h next xs) fits_rid (omega arith));
        keeps = keep;
        linked = Linked-Preserves s s' next chunks keep link;
        some_char = some_char;
      }

  pub Chain-Opened :
      (s : S) (rid : Rid) (xs : List ℕ) (chunks : List (List ℕ))
      → Chain h s rid (xs ∷ chunks)
      → Opened s rid xs chunks
  Chain-Opened s rid xs [] (held, some_char, fits) =
      open_chunk s rid no_rid xs [] held (omega arith, omega arith) some_char fits refl
  Chain-Opened s rid xs (ys ∷ chunks) (next, i, held, some_char, fits, ok, at, c) =
      open_chunk s rid next xs (ys ∷ chunks) held ok some_char fits (i, at, c)

  -- A cursor in a string: what is left is the rest of its chunk, and the chunks behind it.
  pub record Current (s : S) (r : StringRecord) (chunks : List (List ℕ)) : Type 0 where
    pub sized : r.chunk.size ≡ length r.chunk.chars
    pub within : r.idx ≤ r.chunk.size
    pub linked : Linked s r.chunk.rid chunks

  abbrev pub rest_of : StringRecord → List (List ℕ) → List ℕ
  rest_of r chunks = drop r.idx r.chunk.chars ++ joined h chunks

  -- One step of the cursor: it says whether a char is left, and delivers it.
  pub data Step (s : S) (r : StringRecord) (rest : List ℕ) : Type 0 where
    ended : has_next_char r ≡ false → rest ≡ [] → Step s r rest
    advanced :
        (c : ℕ) (r' : StringRecord) (s' : S) (chunks' : List (List ℕ))
        → has_next_char r ≡ true
        → next_char table r s ≡ some ((c, r'), s')
        → Preserves h s s'
        → Current s' r' chunks'
        → rest ≡ c ∷ rest_of r' chunks'
        → Step s r rest

  in_chunk :
      (s : S) (r : StringRecord) (chunks : List (List ℕ))
      → Current s r chunks
      → r.chunk.size ≢ r.idx
      → Step s r (rest_of r chunks)
  unfolding has_next_char next_char
  in_chunk s r chunks c ne =
      let off : (r.chunk.size == r.idx) ≡ false = ground arith in
      advanced (get_or r.chunk.chars r.idx 0) (record r { idx = r.idx + 1 }) s chunks (rw off)
        (rw off) (λ q bytes held. held)
        (record { sized = c.sized; within = omega (arith, c.within); linked = c.linked })
        (ap (λ t. t ++ joined h chunks)
          (drop-get_or r.chunk.chars r.idx 0 (omega (arith, c.sized, c.within))))

  at_end :
      (s : S) (r : StringRecord) (chunks : List (List ℕ))
      → Current s r chunks
      → r.chunk.size ≡ r.idx
      → Step s r (rest_of r chunks)
  unfolding has_next_char next_char
  at_end s r [] c e =
      let off : (r.chunk.size == r.idx) ≡ true = ground arith in
      let last : (r.chunk.rid.idx =ℤ minus_one) ≡ true = ap (λ z. z =ℤ minus_one) c.linked in
      ended (rw (off, last)) (
        ap (λ n. drop n r.chunk.chars ++ []) (sym e ∙ c.sized)
        ∙ ap (λ t. t ++ []) (drop-all r.chunk.chars))
  at_end s r (xs ∷ chunks) c e =
      let (i, at, chain) = c.linked in
      let o = Chain-Opened s r.chunk.rid xs chunks chain in
      let off : (r.chunk.size == r.idx) ≡ true = ground arith in
      let more : (r.chunk.rid.idx =ℤ minus_one) ≡ false = ap (λ z. z =ℤ minus_one) at in
      advanced (get_or xs 0 0) (record { chunk = chunk_of h o.next xs; idx = 1 }) o.after chunks
        (rw (off, more)) (rw (off, more, o.reads, ◌>>=◌)) o.keeps
        (record { sized = refl; within = omega (arith, o.some_char); linked = o.linked })
        (ap (λ n. drop n r.chunk.chars ++ (xs ++ joined h chunks)) (sym e ∙ c.sized)
          ∙ ap (λ t. t ++ (xs ++ joined h chunks)) (drop-all r.chunk.chars)
          ∙ ap (λ t. t ++ joined h chunks) (drop-get_or xs 0 0 o.some_char))

  pub Current-Step :
      (s : S) (r : StringRecord) (chunks : List (List ℕ))
      → Current s r chunks
      → Step s r (rest_of r chunks)
  Current-Step s r chunks c = elim (ℕ_discrete r.chunk.size r.idx) [
    | yes e ↦ at_end s r chunks c e
    | no ne ↦ in_chunk s r chunks c ne
  ]

  -- What `load_string` delivers: the first `room` chars of what is left, and all items as they were.
  abbrev pub Delivers : (room : ℕ) → S → StringRecord → List ℕ → Type 0
  Delivers room s r chars =
      (s' : S) × (load_chars table room r s ≡ some (chars, s')) × Preserves h s s'

  load_next :
      (room : ℕ) (s : S) (r : StringRecord) (rest : List ℕ)
      → ((s' : S) (r' : StringRecord) (chunks : List (List ℕ))
          → Current s' r' chunks
          → Delivers room s' r' (take room (rest_of r' chunks)))
      → Step s r rest
      → Delivers (suc room) s r (take (suc room) rest)
  unfolding load_chars
  load_next room s r rest ih (ended off none_left) =
      (s, rw (off, load_chars, none_left), λ q bytes held. held)
  load_next room s r rest ih (advanced x r' s' chunks' on steps keep c' e) =
      let (s'', loads, keep') = ih s' r' chunks' c' in
      (
        s'',
        rw (on, load_chars, e, steps, ◌>>=◌, loads),
        λ q bytes held. keep' q bytes (keep q bytes held),
      )

  load_chars-take :
      (room : ℕ) (s : S) (r : StringRecord) (chunks : List (List ℕ))
      → Current s r chunks
      → Delivers room s r (take room (rest_of r chunks))
  unfolding load_chars
  load_chars-take zero s r chunks c = (s, refl, λ q bytes held. held)
  load_chars-take (suc room) s r chunks c =
      load_next room s r (rest_of r chunks) (load_chars-take room) (Current-Step s r chunks c)

  -- A string that the table holds is loaded from its id: `read_string` and then `load_string` with
  -- room for `max_size` chars succeed and deliver its first `max_size` chars, or all if it has
  -- fewer, and every item of the table is left as it was.
  pub load_string-take :
      (s : S) (rid : Rid) (chunks : List (List ℕ)) (max_size : ℕ)
      → Chain h s rid chunks
      → (s' : S) × ((read_string table rid >>= λ r. load_string table r max_size) s
          ≡ some (take max_size (joined h chunks), s'))
        × Preserves h s s'
  unfolding load_string
  load_string-take s rid [] max_size c = absurd c
  load_string-take s rid (xs ∷ chunks) max_size c =
      let o = Chain-Opened s rid xs chunks c in
      let opened : Current o.after (record { chunk = chunk_of h o.next xs; idx = 0 }) chunks =
        record { sized = refl; within = omega arith; linked = o.linked } in
      let (s', loads, keep) = load_chars-take max_size o.after _ chunks opened in
      (s', rw (o.reads, ◌>>=◌) loads, λ q bytes held. keep q bytes (o.keeps q bytes held))
