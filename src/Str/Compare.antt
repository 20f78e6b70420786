-- ===== src/Str/Compare.antt =====
-- `compare_string_record` of src/str.c, and the order of strings that it computes.
use my_jql.Prelude.{
  ℕ, zero, suc, ◌+◌, ◌%◌, ◌<◌, ℤ, pos, negsuc, ◌≡◌, refl, ap, some, List, [], ◌∷◌, Bool, true,
  false, ◌==◌, ltb, if◌then◌else◌, length, arith, Bool-cases, inl, inr,
}
use my_jql.Exec.{Exec, pure, undefined, ◌>>=◌}
use my_jql.Table.{Rid, Items}
use my_jql.Str.{StringRecord, has_next_char, next_char, read_string}
use my_jql.Str.Laws.{HasItems, Preserves, Chain, joined, chunk_of, Chain-Preserves}
use my_jql.Str.Load.{
  Current, Step, ended, advanced, rest_of, Current-Step, Linked-Preserves, Chain-Opened,
}

-- `a > b` for two values of type `char`, as bytes, where `char` is signed.
abbrev pub char_greater : ℕ → ℕ → Bool
char_greater a b = ltb ((b + 128) % 256) ((a + 128) % 256)

-- `a > b ? 1 : -1`
abbrev pub differ : ℕ → ℕ → ℤ
differ a b = if char_greater a b then pos 1 else negsuc 0

-- The order of two strings: the first chars that differ decide, and a prefix comes first.
unfoldable pub compare_chars : List ℕ → List ℕ → ℤ
compare_chars [] [] = pos 0
compare_chars [] (b ∷ ys) = negsuc 0
compare_chars (a ∷ xs) [] = pos 1
compare_chars (a ∷ xs) (b ∷ ys) =
    let rest = compare_chars xs ys in if a == b then rest else differ a b

module _ {S : Type 0} (table : Items S) where
  -- The loop and the tests behind it. The fuel bounds the chars that are compared.
  unfoldable pub compare_records : (fuel : ℕ) → (record_1 record_2 : StringRecord) → Exec S ℤ
  compare_records zero r q = undefined
  compare_records (suc fuel) r q = elim (has_next_char r) [
    | true ↦ elim (has_next_char q) [
      | true ↦ (do
        (a, r') ← next_char table r
        (b, q') ← next_char table q
        elim (a == b) [ true ↦ compare_records fuel r' q' | false ↦ pure (differ a b) ])
      | false ↦ pure (pos 1)
    ]
    | false ↦ elim (has_next_char q) [ true ↦ pure (negsuc 0) | false ↦ pure (pos 0) ]
  ]

  unfoldable pub compare_string_record : (fuel : ℕ) → (a b : StringRecord) → Exec S ℤ
  compare_string_record fuel a b =
      if a.chunk.size == 0
      then pure (negsuc 0)
      else if b.chunk.size == 0
      then pure (pos 1)
      else compare_records fuel a b

module _ {S : Type 0} {table : Items S} (h : HasItems table) where
  Current-Preserves :
      (s s' : S) (r : StringRecord) (chunks : List (List ℕ))
      → Preserves h s s'
      → Current h s r chunks
      → Current h s' r chunks
  Current-Preserves s s' r chunks keep c = record {
    sized = c.sized;
    within = c.within;
    linked = Linked-Preserves h s s' r.chunk.rid chunks keep c.linked;
  }

  -- What a comparison delivers, with all items as they were.
  abbrev pub Compares : S → Exec S ℤ → ℤ → Type 0
  Compares s run result = (s' : S) × (run s ≡ some (result, s')) × Preserves h s s'

  abbrev Agrees : ℕ → Type 0
  Agrees fuel =
      (s : S) (r q : StringRecord) (cs ds : List (List ℕ))
      → Current h s r cs
      → Current h s q ds
      → length (rest_of h r cs) < fuel
      → Compares s (compare_records table fuel r q)
          (compare_chars (rest_of h r cs) (rest_of h q ds))

  -- The first string is at its end.
  compare_ended :
      (fuel : ℕ) (s : S) (r q : StringRecord) (rest : List ℕ)
      → has_next_char r ≡ false
      → Step h s q rest
      → Compares s (compare_records table (suc fuel) r q) (compare_chars [] rest)
  unfolding compare_records compare_chars
  compare_ended fuel s r q rest off (ended off' e') =
      (s, rw (off, compare_records, off', e') refl, λ k bytes held. held)
  compare_ended fuel s r q rest off (advanced b q' s' ds' on' steps' keep' d' e') =
      (s, rw (off, compare_records, on', e') refl, λ k bytes held. held)

  -- The first string has delivered a char.
  compare_advanced :
      (fuel : ℕ) (s s' : S) (r r' q : StringRecord) (a : ℕ) (cs' : List (List ℕ)) (rest : List ℕ)
      → Agrees fuel
      → has_next_char r ≡ true
      → next_char table r s ≡ some ((a, r'), s')
      → Preserves h s s'
      → Current h s' r' cs'
      → length (rest_of h r' cs') < fuel
      → Step h s' q rest
      → Compares s
          (compare_records table (suc fuel) r q)
          (compare_chars (a ∷ rest_of h r' cs') rest)
  unfolding compare_records compare_chars
  compare_advanced fuel s s' r r' q a cs' rest ih on steps keep c' few (ended off' e') =
      (s, rw (on, compare_records, off', e') refl, λ k bytes held. held)
  compare_advanced fuel s s' r r' q a cs' rest ih on steps keep c' few
        (advanced b q' s'' ds' on' steps' keep' d' e') =
      elim (Bool-cases (a == b)) [
        | inl same ↦
            let (t, run, keep'') =
              ih s'' r' q' cs' ds' (Current-Preserves s' s'' r' cs' keep' c') d' few in
            (
              t,
              rw (on, compare_records, on', e', steps, ◌>>=◌, steps', same) run,
              λ k bytes held. keep'' k bytes (keep' k bytes (keep k bytes held)),
            )
        | inr other ↦ (
          s'',
          rw (on, compare_records, on', e', steps, ◌>>=◌, steps', other) refl,
          λ k bytes held. keep' k bytes (keep k bytes held),
        )
      ]

  compare_next :
      (fuel : ℕ) (s : S) (r q : StringRecord) (rest : List ℕ) (ds : List (List ℕ))
      → Agrees fuel
      → Current h s q ds
      → length rest < suc fuel
      → Step h s r rest
      → Compares s (compare_records table (suc fuel) r q) (compare_chars rest (rest_of h q ds))
  compare_next fuel s r q rest ds ih d few (ended off e) =
      rw e (compare_ended fuel s r q (rest_of h q ds) off (Current-Step h s q ds d))
  compare_next fuel s r q rest ds ih d few (advanced a r' s' cs' on steps keep c' e) = rw e (
      compare_advanced fuel s s' r r' q a cs' (rest_of h q ds) ih on steps keep c'
        (omega (arith, ap length e)) (Current-Step h s' q ds (Current-Preserves s s' q ds keep d)))

  compare_records-Agrees : (fuel : ℕ) → Agrees fuel
  compare_records-Agrees zero s r q cs ds c d few = absurd (omega arith)
  compare_records-Agrees (suc fuel) s r q cs ds c d few =
      compare_next fuel s r q (rest_of h r cs) ds (compare_records-Agrees fuel) d few
        (Current-Step h s r cs c)

  -- Two strings that the table holds are read, and `compare_string_record` of them, with fuel for
  -- the chars of the first, returns their order, and every item of the table is left as it was.
  pub compare_string_record-chars :
      (s : S) (rid rid' : Rid) (cs ds : List (List ℕ)) (fuel : ℕ)
      → Chain h s rid cs
      → Chain h s rid' ds
      → length (joined h cs) < fuel
      → (s' : S) × ((read_string table rid >>= λ a.
              read_string table rid' >>= λ b. compare_string_record table fuel a b)
            s
          ≡ some (compare_chars (joined h cs) (joined h ds), s'))
        × Preserves h s s'
  unfolding compare_string_record
  compare_string_record-chars s rid rid' [] ds fuel c d few = absurd c
  compare_string_record-chars s rid rid' (xs ∷ cs) [] fuel c d few = absurd d
  compare_string_record-chars s rid rid' (xs ∷ cs) (ys ∷ ds) fuel c d few =
      let o = Chain-Opened h s rid xs cs c in
      let o' =
        Chain-Opened h o.after rid' ys ds (Chain-Preserves h s o.after rid' (ys ∷ ds) o.keeps d) in
      let first : Current h o'.after (record { chunk = chunk_of h o.next xs; idx = 0 }) cs =
        Current-Preserves o.after o'.after _ cs o'.keeps
          (record { sized = refl; within = omega arith; linked = o.linked }) in
      let second : Current h o'.after (record { chunk = chunk_of h o'.next ys; idx = 0 }) ds =
        record { sized = refl; within = omega arith; linked = o'.linked } in
      let (t, run, keep) = compare_records-Agrees fuel o'.after _ _ cs ds first second few in
      let some_x : (length xs == 0) ≡ false = ground (arith, o.some_char) in
      let some_y : (length ys == 0) ≡ false = ground (arith, o'.some_char) in
      (
        t,
        rw (o.reads, ◌>>=◌, o'.reads, some_x, some_y) run,
        λ k bytes held. keep k bytes (o'.keeps k bytes (o.keeps k bytes held)),
      )
