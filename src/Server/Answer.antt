-- ===== src/Server/Answer.antt =====
-- The thread of src/main/myjqlserver.c against a client that keeps to the protocol: every request gets
-- its answer, and the store is called as the requests ask.
use my_jql.Prelude.{
  ℕ, Bool, zero, suc, ◌+◌, ◌<◌, ℤ, pos, Option, none, some, List, [], ◌∷◌, ◌++◌, All, length, ◌≡◌,
  sym, ap, ◌∙◌, arith,
}
use mathlib.Core.List.{append_assoc}
use mathlib.Core.Path.{subst}
use my_jql.Server.{
  Packet, Message, number, Engine, World, Outcome, done, returned, Action, and_then,
  close_and_return, ask, send, send_code,
}
use my_jql.Server.Thread.{serve_exit, dispatch, serve_request, instance_thread}
use my_jql.Server.Protocol.{Request, encode_all, IsSendable, answer, answer_all, at}
use my_jql.Server.Wire.{recv_code-int_packet}
use my_jql.Server.Given.{Gives, serve_request-answer}

module _ {S : Type 0} (engine : Engine S) (memory : ℕ → ℕ → ℕ) where
  serve_exit-at :
      (closed : Bool) (m : ℕ) (s : S) (c : ℤ) (sent : List Message) (closes : ℕ)
      → serve_request engine memory (at closed m s c (encode_all []) sent closes)
        ≡ (returned 0, at closed m s (pos 1) [] (sent ++ number (pos 1) ∷ []) (closes + 1))
  unfolding serve_request dispatch serve_exit send_code send ask close_and_return
  serve_exit-at closed m s c sent closes =
      ap (λ r. and_then r λ _ w'. dispatch engine memory w'.code w')
        (recv_code-int_packet closed sent closes m s c (pos 3) [] (omega arith))

  -- The session ends with these answers, if the calls of the store succeed.
  abbrev Finishes :
      Bool → Outcome (Unit {0}) × World S → List Message → ℕ → Option (List Message × S) → Type 0
  Finishes closed r sent closes none = Unit
  Finishes closed r sent closes (some (messages, s')) =
      (m' : ℕ) × (r ≡ (
        returned 0,
        at closed m' s' (pos 1) [] (sent ++ (messages ++ number (pos 1) ∷ [])) (closes + 1),
      ))

  Finishes_next :
      (closed : Bool) (k : Action S (Unit {0})) (r : Outcome (Unit {0}) × World S) (m' : ℕ) (s' : S)
      (c' : ℤ) (rest : List Packet) (sent ms : List Message) (closes : ℕ)
      (o : Option (List Message × S))
      → r ≡ (done tt, at closed m' s' c' rest (sent ++ ms) closes)
      → Finishes closed (k (at closed m' s' c' rest (sent ++ ms) closes)) (sent ++ ms) closes o
      → Finishes closed
          (and_then r λ _. k)
          sent
          closes
          (elim o [ none ↦ none | some (more, s'') ↦ some (ms ++ more, s'') ])
  Finishes_next closed k r m' s' c' rest sent ms closes none e g = tt
  Finishes_next closed k r m' s' c' rest sent ms closes (some (more, s'')) e (m'', g) = (
    m'',
    ap (λ r. and_then r λ _. k) e
        ∙ g
        ∙ ap (λ t. (returned 0, at closed m'' s'' (pos 1) [] t (closes + 1)))
            (append_assoc sent ms (more ++ number (pos 1) ∷ [])
              ∙ ap (λ t. sent ++ t) (sym (append_assoc ms more (number (pos 1) ∷ [])))),
  )

  session :
      (fuel : ℕ) (closed : Bool) (rs : List Request) (m : ℕ) (s : S) (c : ℤ) (sent : List Message)
      (closes : ℕ)
      → All IsSendable rs
      → length rs < fuel
      → Finishes closed
          (instance_thread engine memory fuel (at closed m s c (encode_all rs) sent closes))
          sent
          closes
          (answer_all engine rs s)
  unfolding instance_thread
  session zero closed rs m s c sent closes fits enough = absurd (omega arith)
  session (suc fuel) closed [] m s c sent closes fits enough = (
    m,
    ap (λ r. and_then r λ _. instance_thread engine memory fuel)
        (serve_exit-at closed m s c sent closes),
  )
  session (suc fuel) closed (r ∷ rs) m s c sent closes (fit, fits) enough =
      first (answer engine r s)
        (serve_request-answer engine memory closed sent closes (encode_all rs) r m s c fit)
        λ m' s' c' ms. session fuel closed rs m' s' c' (sent ++ ms) closes fits (omega arith)
    where
      asked : Outcome (Unit {0}) × World S
      asked = serve_request engine memory (at closed m s c (encode_all (r ∷ rs)) sent closes)

      first :
          (o : Option (List Message × S))
          → Gives closed sent closes (encode_all rs) asked o
          → ((m' : ℕ) (s' : S) (c' : ℤ) (ms : List Message)
              → Finishes closed
                  (instance_thread engine memory fuel
                    (at closed m' s' c' (encode_all rs) (sent ++ ms) closes))
                  (sent ++ ms)
                  closes
                  (answer_all engine rs s'))
          → Finishes closed
              (and_then asked λ _. instance_thread engine memory fuel)
              sent
              closes
              (elim o [
                | none ↦ none
                | some (ms, s') ↦ elim (answer_all engine rs s') [
                  | none ↦ none
                  | some (more, s'') ↦ some (ms ++ more, s'')
                ]
              ])
      first none g later = tt
      first (some (ms, s')) (c', m', g) later =
          Finishes_next closed (instance_thread engine memory fuel) asked m' s' c' (encode_all rs)
            sent ms closes (answer_all engine rs s') g (later m' s' c' ms)

-- Each `recv` delivers a whole field: the four bytes of an `int`, or all chars of a key or a value. A
-- client that sends requests as the protocol has them, whose lengths do not overflow, and then exits,
-- gets the answers of the requests in their order and the answer of the exit. The store is what the
-- requests make of it, and the thread has closed its socket and returns 0. The sends succeed, the
-- calls of the store do, and there is more fuel than there are requests.
pub instance_thread-answer_all :
    {S : Type 0} (engine : Engine S) (memory : ℕ → ℕ → ℕ) (fuel : ℕ) (closed : Bool)
    (rs : List Request) (m : ℕ) (s s' : S) (c : ℤ) (sent messages : List Message) (closes : ℕ)
    → All IsSendable rs
    → answer_all engine rs s ≡ some (messages, s')
    → length rs < fuel
    → (m' : ℕ) × (instance_thread engine memory fuel (at closed m s c (encode_all rs) sent closes)
        ≡ (
          returned 0,
          at closed m' s' (pos 1) [] (sent ++ (messages ++ number (pos 1) ∷ [])) (closes + 1),
        ))
instance_thread-answer_all engine memory fuel closed rs m s s' c sent messages closes fits e
      enough =
    subst
      (Finishes engine memory closed
        (instance_thread engine memory fuel (at closed m s c (encode_all rs) sent closes)) sent
        closes)
      e (session engine memory fuel closed rs m s c sent closes fits enough)
