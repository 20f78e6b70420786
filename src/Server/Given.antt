-- ===== src/Server/Given.antt =====
-- One request of the protocol to the thread of src/main/myjqlserver.c: it is received, the store is
-- called as it asks, and its answer is sent.
use my_jql.Prelude.{
  ℕ, Bool, ◌+◌, ℤ, pos, Bool-cases, Option, none, some, List, [], ◌∷◌, ◌++◌, length, ltb,
  if◌then◌else◌, ◌≡◌, refl, ap, ◌∙◌, arith, inl, inr,
}
use my_jql.Exec.{Exec}
use my_jql.Server.{
  max_str_len, Packet, Message, number, Engine, World, Outcome, done, Action, and_then, ◌>>=◌, ◌>>◌,
  locked, recv_code, recv_chars, send_code,
}
use my_jql.Server.Thread.{send_value, serve_get, serve_set, serve_del, dispatch, serve_request}
use my_jql.Server.Protocol.{Request, get, set, del, field, encode, IsSendable, reply, answer, at}
use my_jql.Server.Wire.{recv_code-int_packet, send_code-at, recv_field, locked-some, send_value-at}

module _ {S : Type 0} (closed : Bool) (sent : List Message) (closes : ℕ) (rest : List Packet) where
  -- The action has given the answer, if there is one, and goes on.
  abbrev pub Gives : Outcome (Unit {0}) × World S → Option (List Message × S) → Type 0
  Gives r none = Unit
  Gives r (some (messages, s')) =
      (c' : ℤ) × (m' : ℕ) × (r ≡ (done tt, at closed m' s' c' rest (sent ++ messages) closes))

  Gives-step :
      (r r' : Outcome (Unit {0}) × World S) (o : Option (List Message × S))
      → r ≡ r'
      → Gives r' o
      → Gives r o
  Gives-step r r' none e g = tt
  Gives-step r r' (some (messages, s')) e (c', m', g) = (c', m', e ∙ g)

  Gives-code :
      (z : ℤ) (m : ℕ) (s : S) (c : ℤ)
      → Gives (send_code z (at closed m s c rest sent closes)) (some (number z ∷ [], s))
  Gives-code z m s c = (z, m, send_code-at closed sent closes m s c z rest)

  -- Behind a test for a length over the limit.
  Gives-limit :
      (xs : List ℕ) (z : ℤ) (act : Action S (Unit {0})) (m : ℕ) (s : S) (c : ℤ)
      (o : Option (List Message × S))
      → Gives (act (at closed m s c rest sent closes)) o
      → Gives
          ((if ltb max_str_len (length xs) then send_code z else act)
            (at closed m s c rest sent closes))
          (if ltb max_str_len (length xs) then some (number z ∷ [], s) else o)
  Gives-limit xs z act m s c o within = elim (Bool-cases (ltb max_str_len (length xs))) [
    | inl e ↦ rw e (Gives-code z m s c)
    | inr e ↦ rw e within
  ]

  Gives-locked :
      {A : Type 0} (call : Exec S A) (f : A → Action S (Unit {0})) (messages : A → List Message)
      (m : ℕ) (s : S) (c : ℤ)
      → ((a : A) (s' : S) → Gives (f a (at closed m s' c rest sent closes)) (some (messages a, s')))
      → Gives
          ((locked call >>= f) (at closed m s c rest sent closes))
          (elim (call s) [ none ↦ none | some (a, s') ↦ some (messages a, s') ])
  Gives-locked {A} call f messages m s c next = result (call s) refl
    where
      result :
          (o : Option (A × S))
          → call s ≡ o
          → Gives
              ((locked call >>= f) (at closed m s c rest sent closes))
              (elim o [ none ↦ none | some (a, s') ↦ some (messages a, s') ])
      result none e = tt
      result (some (a, s')) e =
          Gives-step ((locked call >>= f) (at closed m s c rest sent closes))
            (f a (at closed m s' c rest sent closes)) (some (messages a, s'))
            (ap (λ r. and_then r f) (locked-some closed sent closes call m s s' a c rest e))
            (next a s')

module _ {S : Type 0} (engine : Engine S) (memory : ℕ → ℕ → ℕ) where
  -- What follows the last field of a request.
  abbrev pub after_get : List ℕ → Action S (Unit {0})
  after_get key =
      if ltb max_str_len (length key)
      then send_code (pos 2)
      else (locked (engine.get key (length key) max_str_len) >>= send_value engine memory)

  abbrev pub after_set : List ℕ → List ℕ → Action S (Unit {0})
  after_set key value =
      if ltb max_str_len (length key)
      then send_code (pos 2)
      else if ltb max_str_len (length value)
      then send_code (pos 3)
      else (locked (engine.set key (length key) value (length value)) >> send_code (pos 1))

  abbrev after_del : List ℕ → Action S (Unit {0})
  after_del key =
      if ltb max_str_len (length key)
      then send_code (pos 2)
      else (locked (engine.del key (length key)) >> send_code (pos 1))

  abbrev after : Request → Action S (Unit {0})
  after (get key) = after_get key
  after (set key value) = after_set key value
  after (del key) = after_del key

module _ {S : Type 0} (engine : Engine S) (memory : ℕ → ℕ → ℕ) (closed : Bool) (sent : List Message)
    (closes : ℕ) (rest : List Packet) where
  Gives-after :
      (r : Request) (m : ℕ) (s : S) (c : ℤ)
      → Gives closed sent closes rest
          (after engine memory r (at closed m s c rest sent closes))
          (answer engine r s)
  Gives-after (get key) m s c = Gives-limit closed sent closes rest key (pos 2) _ m s c _ (
      Gives-locked closed sent closes rest (engine.get key (length key) max_str_len)
        (send_value engine memory) reply m s c
        λ value s'.
          let (c', e) = send_value-at closed sent closes engine memory value m s' c rest in
          (c', m, e))
  Gives-after (set key value) m s c = Gives-limit closed sent closes rest key (pos 2) _ m s c _ (
      Gives-limit closed sent closes rest value (pos 3) _ m s c _ (
        Gives-locked closed sent closes rest (engine.set key (length key) value (length value))
          (λ _. send_code (pos 1)) (λ _. number (pos 1) ∷ []) m s c
          λ _ s'. Gives-code closed sent closes rest (pos 1) m s' c))
  Gives-after (del key) m s c = Gives-limit closed sent closes rest key (pos 2) _ m s c _ (
      Gives-locked closed sent closes rest (engine.del key (length key)) (λ _. send_code (pos 1))
        (λ _. number (pos 1) ∷ []) m s c λ _ s'. Gives-code closed sent closes rest (pos 1) m s' c)

  -- How many buffers have been made then, of `m` before.
  abbrev buffers : Request → ℕ → ℕ
  buffers (get key) m = m + 1
  buffers (set key value) m = m + 1 + 1
  buffers (del key) m = m + 1

  -- The code in the thread once the fields of a request have arrived.
  abbrev last_code : Request → ℤ
  last_code (get key) = pos (length key)
  last_code (set key value) = pos (length value)
  last_code (del key) = pos (length key)

  pub received :
      (r : Request) (m : ℕ) (s : S) (c : ℤ)
      → IsSendable r
      → serve_request engine memory (at closed m s c (encode r rest) sent closes)
        ≡ after engine memory r (at closed (buffers r m) s (last_code r) rest sent closes)
  unfolding serve_request dispatch serve_get serve_set serve_del
  received (get key) m s c fits =
      ap (λ r. and_then r λ _ w'. dispatch engine memory w'.code w')
        (recv_code-int_packet closed sent closes m s c (pos 0) (field key rest) (omega arith))
      ∙ recv_field closed sent closes (after_get engine memory) memory m s (pos 0) key rest fits
  received (set key value) m s c (fits, fits') =
      ap (λ r. and_then r λ _ w'. dispatch engine memory w'.code w')
        (recv_code-int_packet closed sent closes m s c (pos 1) (field key (field value rest))
          (omega arith))
      ∙ recv_field closed sent closes
          (λ key. recv_code >> (recv_chars memory >>= after_set engine memory key)) memory m s
          (pos 1) key (field value rest) fits
      ∙ recv_field closed sent closes (after_set engine memory key) memory (m + 1) s
          (pos (length key)) value rest fits'
  received (del key) m s c fits =
      ap (λ r. and_then r λ _ w'. dispatch engine memory w'.code w')
        (recv_code-int_packet closed sent closes m s c (pos 2) (field key rest) (omega arith))
      ∙ recv_field closed sent closes (after_del engine memory) memory m s (pos 2) key rest fits

  pub serve_request-answer :
      (r : Request) (m : ℕ) (s : S) (c : ℤ)
      → IsSendable r
      → Gives closed sent closes rest
          (serve_request engine memory (at closed m s c (encode r rest) sent closes))
          (answer engine r s)
  serve_request-answer r m s c fits =
      Gives-step closed sent closes rest _ _ (answer engine r s) (received r m s c fits)
        (Gives-after r (buffers r m) s (last_code r))
