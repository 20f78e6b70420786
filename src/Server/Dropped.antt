-- ===== src/Server/Dropped.antt =====
-- The thread of src/main/myjqlserver.c when its client closes the connection without an exit: each
-- further `recv` returns no bytes, and the thread does not test for that.
use my_jql.Prelude.{
  ℕ, zero, suc, ◌+◌, ◌≤◌, ◌<◌, ◌^◌, ℤ, pos, negsuc, some, List, [], ◌∷◌, ◌++◌, true, false, length,
  ltb, ge→ltb, ◌≡◌, refl, ap, ◌∙◌, arith,
}
use mathlib.Core.List.{append_assoc}
use my_jql.Str.{to_bytes, from_bytes}
use my_jql.Str.Codec.{Fits}
use my_jql.Server.{
  max_str_len, Message, number, Engine, done, exhausted, and_then, ◌>>◌, recv_code, recv_bytes,
  take_buffer, recv_chars, receive, recv, send_code,
}
use my_jql.Server.Thread.{send_value, dispatch, serve_set, serve_request, instance_thread}
use my_jql.Server.Protocol.{get, set, encode, reply, at}
use my_jql.Server.Wire.{int_round, send_value-some, locked-some, send_code-at}
use my_jql.Server.Given.{after_get, after_set, received}

module _ {S : Type 0} (engine : Engine S) (memory : ℕ → ℕ → ℕ) where
  -- A pair of short strings is stored, and the answer is 1.
  store_short :
      (m : ℕ) (s s' : S) (c : ℤ) (key value : List ℕ) (sent : List Message) (closes : ℕ)
      → length key ≤ max_str_len
      → length value ≤ max_str_len
      → engine.set key (length key) value (length value) s ≡ some (tt, s')
      → after_set engine memory key value (at true m s c [] sent closes)
        ≡ (done tt, at true m s' (pos 1) [] (sent ++ number (pos 1) ∷ []) closes)
  store_short m s s' c key value sent closes short short' e =
      let off : ltb max_str_len (length key) ≡ false = ge→ltb _ _ short in
      let off' : ltb max_str_len (length value) ≡ false = ge→ltb _ _ short' in
      rw (off, off')
        (ap (λ r. and_then r λ _. send_code (pos 1))
            (locked-some true sent closes (engine.set key (length key) value (length value)) m s s'
              tt c [] e)
          ∙ send_code-at true sent closes m s' c (pos 1) [])

  -- The round after a reply 1.
  next_round :
      (m : ℕ) (s s' : S) (sent : List Message) (closes : ℕ)
      → engine.set (memory m 0 ∷ []) 1 (memory (m + 1) 0 ∷ []) 1 s ≡ some (tt, s')
      → serve_request engine memory (at true m s (pos 1) [] sent closes)
        ≡ (done tt, at true (m + 1 + 1) s' (pos 1) [] (sent ++ number (pos 1) ∷ []) closes)
  unfolding serve_request dispatch serve_set recv_code recv_chars recv_bytes take_buffer recv
      receive to_bytes from_bytes
  next_round m s s' sent closes e =
      store_short (m + 1 + 1) s s' (pos 1) (memory m 0 ∷ []) (memory (m + 1) 0 ∷ []) sent closes
        (omega arith) (omega arith) e

-- A client sends a `set` of a key and a value of at most `MAX_STR_LEN` chars, each field in one
-- `recv`, and closes the connection. If both calls of the store succeed, the first two rounds of the
-- thread store the pair, and then a key and a value of one char, which are what two further buffers
-- from `malloc` hold; 1 is sent for both.
pub serve_request-dropped :
    {S : Type 0} (engine : Engine S) (memory : ℕ → ℕ → ℕ) (m : ℕ) (s s' s'' : S) (c : ℤ)
    (key value : List ℕ) (sent : List Message) (closes : ℕ)
    → length key ≤ max_str_len
    → length value ≤ max_str_len
    → engine.set key (length key) value (length value) s ≡ some (tt, s')
    → engine.set (memory (m + 2) 0 ∷ []) 1 (memory (m + 3) 0 ∷ []) 1 s' ≡ some (tt, s'')
    → (serve_request engine memory >> serve_request engine memory)
        (at true m s c (encode (set key value) []) sent closes)
      ≡ (
        done tt,
        at true (m + 4) s'' (pos 1) [] (sent ++ number (pos 1) ∷ number (pos 1) ∷ []) closes,
      )
serve_request-dropped engine memory m s s' s'' c key value sent closes short short' e e' =
    ap (λ r. and_then r λ _. serve_request engine memory)
      (received engine memory true sent closes [] (set key value) m s c (omega arith, omega arith)
        ∙ store_short engine memory (m + 1 + 1) s s' (pos (length value)) key value sent closes
            short short' e)
    ∙ next_round engine memory (m + 1 + 1) s' s'' (sent ++ number (pos 1) ∷ []) closes (
        ap (λ n. engine.set (memory n 0 ∷ []) 1 (memory (n + 1) 0 ∷ []) 1 s') (two m)
        ∙ ap (λ n. engine.set (memory (m + 2) 0 ∷ []) 1 (memory n 0 ∷ []) 1 s') (three m)
        ∙ e')
    ∙ ap
        (λ n. (
          done tt,
          at true n s'' (pos 1) [] ((sent ++ number (pos 1) ∷ []) ++ number (pos 1) ∷ []) closes,
        ))
        (four m)
    ∙ ap (λ t. (done tt, at true (m + 4) s'' (pos 1) [] t closes))
        (append_assoc sent (number (pos 1) ∷ []) (number (pos 1) ∷ []))
  where
    two : (m : ℕ) → m + 1 + 1 ≡ m + 2
    two m = omega arith

    three : (m : ℕ) → m + 2 + 1 ≡ m + 3
    three m = omega arith

    four : (m : ℕ) → m + 1 + 1 + 1 + 1 ≡ m + 4
    four m = omega arith

-- An `int` that is none of the four requests.
abbrev pub IsOther : ℤ → Type 0
IsOther (pos n) = (3 < n) × (n < 2 ^ 31)
IsOther (negsuc n) = n < 2 ^ 31

module _ {S : Type 0} (engine : Engine S) (memory : ℕ → ℕ → ℕ) (m : ℕ) (s : S) (sent : List Message)
    (closes : ℕ) where
  keeps_code :
      (c : ℤ)
      → Fits (2 ^ 31) c
      → recv_code (at true m s c [] sent closes) ≡ (done tt, at true m s c [] sent closes)
  unfolding recv_code recv receive to_bytes
  keeps_code c fits = ap (λ t. (done tt, at true m s t [] sent closes)) (int_round c fits (λ i. 0))

  passed_over :
      (c : ℤ)
      → IsOther c
      → serve_request engine memory (at true m s c [] sent closes)
        ≡ (done tt, at true m s c [] sent closes)
  unfolding serve_request dispatch
  passed_over (pos n) (more, fits) =
      ap (λ r. and_then r λ _ w'. dispatch engine memory w'.code w') (keeps_code (pos n) fits)
      ∙ ground arith
  passed_over (negsuc n) fits =
      ap (λ r. and_then r λ _ w'. dispatch engine memory w'.code w') (keeps_code (negsuc n) fits)

  -- Such a thread does nothing in any number of rounds.
  spins :
      (c : ℤ)
      → IsOther c
      → (fuel : ℕ)
      → instance_thread engine memory fuel (at true m s c [] sent closes)
        ≡ (exhausted, at true m s c [] sent closes)
  unfolding instance_thread
  spins c other zero = refl
  spins c other (suc fuel) =
      ap (λ r. and_then r λ _. instance_thread engine memory fuel) (passed_over c other)
      ∙ spins c other fuel

-- A client sends a `get` of a key of at most `MAX_STR_LEN` chars, each field in one `recv`, the store
-- has a value of more than 3 chars for it, and the client closes the connection behind its request.
-- The thread sends the value, and then its loop never ends: for any number of rounds it has not
-- returned, has not closed its socket, and is in the state that it had after the first.
pub instance_thread_spins :
    {S : Type 0} (engine : Engine S) (memory : ℕ → ℕ → ℕ) (m : ℕ) (s s' : S) (c : ℤ)
    (key value : List ℕ) (sent : List Message) (closes fuel : ℕ)
    → length key ≤ max_str_len
    → 3 < length value
    → length value < 2 ^ 31
    → engine.get key (length key) max_str_len s ≡ some (some value, s')
    → instance_thread engine memory (suc fuel) (at true m s c (encode (get key) []) sent closes)
      ≡ (exhausted, at true (m + 1) s' (pos (length value)) [] (sent ++ reply (some value)) closes)
unfolding instance_thread
instance_thread_spins engine memory m s s' c key value sent closes fuel short more fits e =
    let off : ltb max_str_len (length key) ≡ false = ge→ltb _ _ short in
    let answered : after_get engine memory key (at true (m + 1) s (pos (length key)) [] sent closes)
        ≡ (
          done tt,
          at true (m + 1) s' (pos (length value)) [] (sent ++ reply (some value)) closes,
        ) =
      rw off (
        ap (λ r. and_then r (send_value engine memory))
          (locked-some true sent closes (engine.get key (length key) max_str_len) (m + 1) s s'
            (some value) (pos (length key)) [] e)
        ∙ send_value-some true sent closes engine memory value (m + 1) s' (pos (length key)) []) in
    ap (λ r. and_then r λ _. instance_thread engine memory fuel)
      (received engine memory true sent closes [] (get key) m s c (omega arith) ∙ answered)
    ∙ spins engine memory (m + 1) s' (sent ++ reply (some value)) closes (pos (length value))
        (more, fits) fuel
