-- ===== src/Server/Wire.antt =====
-- What one `recv` or `send` of src/main/myjqlserver.c does to a thread whose sends all succeed.
use my_jql.Prelude.{
  ℕ, Bool, suc, ◌+◌, ◌^◌, ◌<◌, ℤ, pos, negsuc, Option, none, some, List, [], ◌∷◌, ◌++◌, get_or,
  tabulate, tabulate_ext, tabulate-ext, same_range, length, lt→ltb, ◌≡◌, refl, sym, ap, ◌∙◌, arith,
}
use mathlib.Core.List.{append_assoc, append-nil}
use my_jql.Exec.{Exec}
use my_jql.Str.{to_word, from_word, to_bytes, from_bytes}
use my_jql.Str.Codec.{Fits, from_bytes-to_bytes, length-to_bytes}
use my_jql.Server.{
  Packet, arrived, Message, number, chars, Engine, done, Action, and_then, ◌>>=◌, ◌>>◌, receive,
  recv, ask, send, locked, overlay, recv_code, recv_bytes, take_buffer, recv_chars, send_code,
}
use my_jql.Server.Thread.{send_value}
use my_jql.Server.Protocol.{int_packet, field, reply, at}

tabulate-get_or : (xs : List ℕ) → tabulate (λ i. get_or xs i 0) 0 (length xs) ≡ xs
tabulate-get_or [] = refl
tabulate-get_or (x ∷ xs) =
    ap (λ t. x ∷ t)
      (tabulate-ext (λ i. get_or (x ∷ xs) i 0) (λ i. get_or xs i 0) 1 0 (length xs)
          (λ j lt. shift j)
        ∙ tabulate-get_or xs)
  where
    shift : (j : ℕ) → get_or (x ∷ xs) (1 + j) 0 ≡ get_or xs (0 + j) 0
    shift j = ap (λ k. get_or (x ∷ xs) k 0) (one_add j) ∙ ap (λ k. get_or xs k 0) (zero_add j)
      where
        one_add : (j : ℕ) → 1 + j ≡ suc j
        one_add j = omega arith

        zero_add : (j : ℕ) → j ≡ 0 + j
        zero_add j = omega arith

overlay_all : (old : ℕ → ℕ) (xs : List ℕ) (n : ℕ) → length xs ≡ n → overlay old xs n ≡ xs
overlay_all old xs n e =
    tabulate_ext _ (λ i. get_or xs i 0) 0 n
      (λ j lo hi. rw (lt→ltb j (length xs) (omega arith)) refl)
    ∙ same_range (λ i. get_or xs i 0) 0 0 n (length xs) refl (sym e)
    ∙ tabulate-get_or xs

pub int_round :
    (z : ℤ)
    → Fits (2 ^ 31) z
    → (old : ℕ → ℕ)
    → from_word (2 ^ 32) (from_bytes 4 (overlay old (to_bytes 4 (to_word (2 ^ 32) z)) 4)) ≡ z
int_round z fits old =
    let word = to_word (2 ^ 32) z in
    let bytes = to_bytes 4 word in
    ap (λ t. from_word (2 ^ 32) (from_bytes 4 t))
      (overlay_all old bytes 4 (length-to_bytes 4 word) ∙ sym (append-nil bytes))
    ∙ ap (from_word (2 ^ 32)) (from_bytes-to_bytes 4 word [] (word-lt z))
    ∙ word32 z fits
  where
    word-lt : (z : ℤ) → to_word (2 ^ 32) z < 256 ^ 4
    word-lt (pos n) = omega arith
    word-lt (negsuc n) = omega arith

    word32 : (z : ℤ) → Fits (2 ^ 31) z → from_word (2 ^ 32) (to_word (2 ^ 32) z) ≡ z
    word32 (pos n) h = ground arith
    word32 (negsuc n) h = ground arith

module _ {S : Type 0} (closed : Bool) (sent : List Message) (closes : ℕ) where
  pub recv_code-int_packet :
      (m : ℕ) (s : S) (c z : ℤ) (rest : List Packet)
      → Fits (2 ^ 31) z
      → recv_code (at closed m s c (int_packet z ∷ rest) sent closes)
        ≡ (done tt, at closed m s z rest sent closes)
  unfolding recv_code recv receive
  recv_code-int_packet m s c z rest fits =
      ap (λ t. (done tt, at closed m s t rest sent closes))
        (int_round z fits (λ i. get_or (to_bytes 4 (to_word (2 ^ 32) c)) i 0))

  recv_chars-arrived :
      (memory : ℕ → ℕ → ℕ) (m : ℕ) (s : S) (xs : List ℕ) (rest : List Packet)
      → length xs + 1 < 2 ^ 31
      → recv_chars memory (at closed m s (pos (length xs)) (arrived xs ∷ rest) sent closes)
        ≡ (done xs, at closed (m + 1) s (pos (length xs)) rest sent closes)
  unfolding recv_chars recv_bytes take_buffer recv receive
  recv_chars-arrived memory m s xs rest fits = rw (lt→ltb (length xs + 1) (2 ^ 31) fits) (
      ap (λ t. (done t, at closed (m + 1) s (pos (length xs)) rest sent closes))
        (overlay_all (memory m) xs (length xs) refl))

  pub send_code-at :
      (m : ℕ) (s : S) (c z : ℤ) (rest : List Packet)
      → send_code z (at closed m s c rest sent closes)
        ≡ (done tt, at closed m s z rest (sent ++ number z ∷ []) closes)
  unfolding send_code send ask
  send_code-at m s c z rest = refl

  pub recv_field :
      {A : Type 0} (f : List ℕ → Action S A) (memory : ℕ → ℕ → ℕ) (m : ℕ) (s : S) (c : ℤ)
      (xs : List ℕ) (rest : List Packet)
      → length xs + 1 < 2 ^ 31
      → (recv_code >> (recv_chars memory >>= f)) (at closed m s c (field xs rest) sent closes)
        ≡ f xs (at closed (m + 1) s (pos (length xs)) rest sent closes)
  recv_field f memory m s c xs rest fits =
      ap (λ r. and_then r (λ _. recv_chars memory >>= f))
        (recv_code-int_packet m s c (pos (length xs)) (arrived xs ∷ rest) (omega arith))
      ∙ ap (λ r. and_then r f) (recv_chars-arrived memory m s xs rest fits)

  pub locked-some :
      {A : Type 0} (call : Exec S A) (m : ℕ) (s s' : S) (a : A) (c : ℤ) (rest : List Packet)
      → call s ≡ some (a, s')
      → locked call (at closed m s c rest sent closes) ≡ (done a, at closed m s' c rest sent closes)
  unfolding locked
  locked-some call m s s' a c rest e = rw (e, locked) refl

  pub send_value-some :
      (engine : Engine S) (memory : ℕ → ℕ → ℕ) (value : List ℕ) (m : ℕ) (s : S) (c : ℤ)
      (rest : List Packet)
      → send_value engine memory (some value) (at closed m s c rest sent closes)
        ≡ (done tt, at closed m s (pos (length value)) rest (sent ++ reply (some value)) closes)
  unfolding send_value send_code send ask
  send_value-some engine memory value m s c rest =
      ap (λ t. (done tt, at closed m s (pos (length value)) rest t closes))
        (ap (λ t. t ++ (chars value ∷ []))
            (append_assoc sent (number (pos 1) ∷ []) (number (pos (length value)) ∷ []))
          ∙ append_assoc sent (number (pos 1) ∷ number (pos (length value)) ∷ [])
              (chars value ∷ []))

  pub send_value-at :
      (engine : Engine S) (memory : ℕ → ℕ → ℕ) (value : Option (List ℕ)) (m : ℕ) (s : S) (c : ℤ)
      (rest : List Packet)
      → (c' : ℤ) × (send_value engine memory value (at closed m s c rest sent closes)
          ≡ (done tt, at closed m s c' rest (sent ++ reply value) closes))
  unfolding send_value send_code send ask
  send_value-at engine memory none m s c rest = (pos 0, refl)
  send_value-at engine memory (some value) m s c rest =
      (pos (length value), send_value-some engine memory value m s c rest)
