-- ===== src/Myjql/Compare.antt =====
-- `ptr_row_cmp` of src/myjql.c compares a key with a stored string.
use my_jql.Prelude.{ℕ, ◌≡◌, refl, some, List, [], ◌∷◌, ◌==◌, arith, Bool-cases, inl, inr}
use my_jql.Exec.{◌>>=◌}
use my_jql.Table.{Rid, Items}
use my_jql.Str.{StringRecord, read_string}
use my_jql.Str.Laws.{HasItems, Preserves, Chain, joined, chunk_of}
use my_jql.Str.Load.{Current, Step, ended, advanced, rest_of, Current-Step, Chain-Opened}
use my_jql.Str.Compare.{compare_chars, Compares}
use my_jql.Myjql.{compare_key}

module _ {S : Type 0} {table : Items S} (h : HasItems table) where
  abbrev Agrees : List ℕ → Type 0
  Agrees key =
      (s : S) (r : StringRecord) (cs : List (List ℕ))
      → Current h s r cs
      → Compares h s (compare_key table key r) (compare_chars key (rest_of h r cs))

  compare_key_ended :
      (s : S) (r : StringRecord) (rest : List ℕ)
      → Step h s r rest
      → Compares h s (compare_key table [] r) (compare_chars [] rest)
  unfolding compare_key compare_chars
  compare_key_ended s r rest (ended off e) = (s, rw (off, e) refl, λ k bytes held. held)
  compare_key_ended s r rest (advanced b r' s' cs' on steps keep c' e) =
      (s, rw (on, e) refl, λ k bytes held. held)

  compare_key_next :
      (a : ℕ) (key : List ℕ) (s : S) (r : StringRecord) (rest : List ℕ)
      → Agrees key
      → Step h s r rest
      → Compares h s (compare_key table (a ∷ key) r) (compare_chars (a ∷ key) rest)
  unfolding compare_key compare_chars
  compare_key_next a key s r rest ih (ended off e) =
      (s, rw (compare_key, off, e) refl, λ k bytes held. held)
  compare_key_next a key s r rest ih (advanced b r' s' cs' on steps keep c' e) =
      elim (Bool-cases (a == b)) [
        | inl same ↦
            let (t, run, keep') = ih s' r' cs' c' in
            (
              t,
              rw (compare_key, on, e, steps, ◌>>=◌, same) run,
              λ k bytes held. keep' k bytes (keep k bytes held),
            )
        | inr other ↦ (s', rw (compare_key, on, e, steps, ◌>>=◌, other) refl, keep)
      ]

  compare_key-Agrees : (key : List ℕ) → Agrees key
  compare_key-Agrees [] s r cs c = compare_key_ended s r (rest_of h r cs) (Current-Step h s r cs c)
  compare_key-Agrees (a ∷ key) s r cs c =
      compare_key_next a key s r (rest_of h r cs) (compare_key-Agrees key) (Current-Step h s r cs c)

  -- A string that the table holds is read, and the loop of `ptr_row_cmp` over a key returns the order
  -- of the key and the string, and every item of the table is left as it was.
  pub compare_key-chars :
      (s : S) (rid : Rid) (cs : List (List ℕ)) (key : List ℕ)
      → Chain h s rid cs
      → (s' : S) × ((read_string table rid >>= compare_key table key) s
          ≡ some (compare_chars key (joined h cs), s'))
        × Preserves h s s'
  compare_key-chars s rid [] key c = absurd c
  compare_key-chars s rid (xs ∷ cs) key c =
      let o = Chain-Opened h s rid xs cs c in
      let first : Current h o.after (record { chunk = chunk_of h o.next xs; idx = 0 }) cs = record {
        sized = refl;
        within = omega arith;
        linked = o.linked;
      } in
      let (t, run, keep) = compare_key-Agrees key o.after _ cs first in
      (t, rw (o.reads, ◌>>=◌) run, λ k bytes held. keep k bytes (o.keeps k bytes held))
