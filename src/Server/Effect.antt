-- ===== src/Server/Effect.antt =====
-- What every action of src/main/myjqlserver.c leaves behind, and how the effects of two actions that
-- follow each other add up.
use my_jql.Prelude.{
  ℕ, Bool, true, false, if◌then◌else◌, ◌+◌, ◌^◌, ℤ, pos, negsuc, Bool-cases, Option-cases, Option,
  none, some, List, [], ◌∷◌, ◌++◌, ◌≡◌, refl, ap, ◌∙◌, sym, ltb, arith, inl, inr,
}
use mathlib.Core.List.{append_assoc, append-nil}
use my_jql.Exec.{Exec}
use my_jql.Server.{
  Packet, failure, arrived, Message, World, Outcome, done, returned, waiting, undefined, exhausted,
  Action, and_then, pure, fault, number, recv_bytes, take_buffer, ◌>>=◌, set_code, close_and_return,
  receive, recv, ask, send, locked, recv_code, recv_chars, send_code, overlay, next_answer,
}

-- How often a thread with this outcome has returned.
abbrev pub returns : {A : Type 0} → Outcome A → ℕ
returns (returned n) = 1
returns (done a) = 0
returns waiting = 0
returns undefined = 0
returns exhausted = 0

abbrev pub Kept : {S A : Type 0} → (S → Type 0) → Option (A × S) → Type 0
Kept P none = Unit
Kept P (some (a, s)) = P s

-- A call of the store that succeeds keeps `P`.
abbrev pub Keeps : {S A : Type 0} → (S → Type 0) → Exec S A → Type 0
Keeps P call = (s : _) → P s → Kept P (call s)

abbrev pub Grows : List Message → List Message → Type 0
Grows xs ys = (more : List Message) × (ys ≡ xs ++ more)

Grows-self : (xs : List Message) → Grows xs xs
Grows-self xs = ([], sym (append-nil xs))

Grows-trans : (xs ys zs : List Message) → Grows xs ys → Grows ys zs → Grows xs zs
Grows-trans xs ys zs (a, e) (b, f) = (a ++ b, f ∙ ap (λ t. t ++ b) e ∙ append_assoc xs a b)

-- From `w`, every action closes the socket as often as it returns, only adds to what is sent, and
-- keeps `P`.
pub record Effect {S A : Type 0} (P : S → Type 0) (w : World S) (r : Outcome A × World S)
    : Type 0 where
  pub closing : r.1.closes ≡ w.closes + returns r.0
  pub growth : Grows w.sent r.1.sent
  pub keeping : P w.store → P r.1.store

module _ {S : Type 0} {P : S → Type 0} where
  -- An action that does not go on has no effects but those so far.
  Effect-stop :
      {A B : Type 0} (o : Outcome A) (o' : Outcome B) (w w' : World S)
      → returns o' ≡ returns o
      → Effect P w (o, w')
      → Effect P w (o', w')
  Effect-stop o o' w w' same e = record {
    closing = let h = e.closing in omega (arith, same);
    growth = e.growth;
    keeping = e.keeping;
  }

  pub Effect-and_then :
      {A B : Type 0} (f : A → Action S B) (w : World S) (r : Outcome A × World S)
      → Effect P w r
      → ((a : A) → (w' : World S) → Effect P w' (f a w'))
      → Effect P w (and_then r f)
  Effect-and_then f w (done a, w') e next =
      let e' = next a w' in
      record {
        closing = let h = e'.closing in let h' = e.closing in omega arith;
        growth = Grows-trans w.sent w'.sent _ e.growth e'.growth;
        keeping = λ p. e'.keeping (e.keeping p);
      }
  Effect-and_then f w (returned n, w') e next = Effect-stop (returned n) (returned n) w w' refl e
  Effect-and_then f w (waiting, w') e next = Effect-stop waiting waiting w w' refl e
  Effect-and_then f w (undefined, w') e next = Effect-stop undefined undefined w w' refl e
  Effect-and_then f w (exhausted, w') e next = Effect-stop exhausted exhausted w w' refl e

  pub Effect-still :
      {A : Type 0} (o : Outcome A) (w w' : World S)
      → returns o ≡ 0
      → w'.store ≡ w.store
      → w'.sent ≡ w.sent
      → w'.closes ≡ w.closes
      → Effect P w (o, w')
  Effect-still o w w' b c e f = record {
    closing = rw b (omega (arith, f));
    growth = rw e (Grows-self w.sent);
    keeping = λ p. rw c p;
  }

  pub Effect-pure : {A : Type 0} (a : A) (w : World S) → Effect P w (pure a w)
  Effect-pure a w = Effect-still (done a) w w refl refl refl refl

  pub Effect-fault : {A : Type 0} (w : World S) → Effect P w (fault {A = A} w)
  Effect-fault w = Effect-still undefined w w refl refl refl refl

  pub Effect-set_code : (c : ℤ) (w : World S) → Effect P w (set_code c w)
  Effect-set_code c w = Effect-still (done tt) w _ refl refl refl refl

  pub Effect-bind :
      {A B : Type 0} (m : Action S A) (f : A → Action S B) (w : World S)
      → Effect P w (m w)
      → ((a : A) → (w' : World S) → Effect P w' (f a w'))
      → Effect P w ((m >>= f) w)
  Effect-bind m f w e next = Effect-and_then f w (m w) e next

  pub Effect-close_and_return :
      {A : Type 0} (n : ℕ) (w : World S) → Effect P w (close_and_return {A = A} n w)
  unfolding close_and_return
  Effect-close_and_return n w = record {
    closing = refl;
    growth = Grows-self w.sent;
    keeping = λ p. p;
  }

  Effect-receive : (packets : List Packet) (w : World S) → Effect P w (receive packets w)
  unfolding receive close_and_return
  Effect-receive [] w = behind_last w.closed
    where
      behind_last : (b : Bool) → Effect {A = List ℕ} P w (if b then (done [], w) else (waiting, w))
      behind_last true = Effect-still (done []) w w refl refl refl refl
      behind_last false = Effect-still waiting w w refl refl refl refl
  Effect-receive (failure ∷ rest) w = record {
    closing = refl;
    growth = Grows-self w.sent;
    keeping = λ p. p;
  }
  Effect-receive (arrived bytes ∷ rest) w = Effect-still (done bytes) w _ refl refl refl refl

  pub Effect-recv : (w : World S) → Effect P w (recv w)
  unfolding recv
  Effect-recv w = Effect-receive w.packets w

  pub Effect-ask : (w : World S) → Effect P w (ask w)
  unfolding ask close_and_return
  Effect-ask w = elim (Bool-cases (next_answer w.answers)) [
    | inl e ↦ rw e (Effect-still (done tt) w _ refl refl refl refl)
    | inr e ↦ rw e (record { closing = refl; growth = Grows-self w.sent; keeping = λ p. p })
  ]

  pub Effect-send : (message : Message) (w : World S) → Effect P w (send message w)
  unfolding send
  Effect-send message w =
      let e = Effect-ask (record w { sent = w.sent ++ message ∷ [] }) in
      record {
        closing = e.closing;
        growth = Grows-trans w.sent _ _ (message ∷ [], refl) e.growth;
        keeping = e.keeping;
      }

  pub Effect-locked :
      {A : Type 0} (call : Exec S A) (w : World S) → Keeps P call → Effect P w (locked call w)
  unfolding locked
  Effect-locked call w keeps = elim (Option-cases (call w.store)) [
    | inl e ↦ rw (e, locked) (Effect-still undefined w w refl refl refl refl)
    | inr ((a, s), e) ↦
        rw (e, locked)
          (record {
            closing = omega arith;
            growth = Grows-self w.sent;
            keeping = λ p. rw e at (keeps w.store p);
          })
  ]

  pub Effect-send_code : (c : ℤ) (w : World S) → Effect P w (send_code c w)
  unfolding send_code
  Effect-send_code c w =
      Effect-bind (set_code c) _ w (Effect-set_code c w) λ _ w'. Effect-send (number c) w'

  pub Effect-recv_code : (w : World S) → Effect P w (recv_code w)
  unfolding recv_code
  Effect-recv_code w =
      Effect-and_then _ w (recv w) (Effect-recv w)
        λ bytes w'. Effect-still (done tt) w' _ refl refl refl refl

  -- A fresh buffer, a `recv`, and what follows them.
  Effect-recv_into :
      {A : Type 0} (f : ℕ → List ℕ → Action S A) (w : World S)
      → ((buffer : ℕ) (bytes : List ℕ) (w' : World S) → Effect P w' (f buffer bytes w'))
      → Effect P w ((take_buffer >>= λ buffer. recv >>= f buffer) w)
  unfolding take_buffer
  Effect-recv_into f w next =
      Effect-bind take_buffer _ w (Effect-still (done w.mallocs) w _ refl refl refl refl)
        λ buffer w1. Effect-bind recv (f buffer) w1 (Effect-recv w1) (next buffer)

  Effect-recv_bytes :
      (memory : ℕ → ℕ → ℕ) (c : ℤ) (w : World S) → Effect P w (recv_bytes memory c w)
  unfolding recv_bytes
  Effect-recv_bytes memory (pos n) w = elim (Bool-cases (ltb (n + 1) (2 ^ 31))) [
    | inl e ↦ rw e (
        Effect-recv_into (λ buffer bytes. pure (overlay (memory buffer) bytes n)) w
          λ buffer bytes w'. Effect-pure (overlay (memory buffer) bytes n) w')
    | inr e ↦ rw e (Effect-fault w)
  ]
  Effect-recv_bytes memory (negsuc n) w =
      Effect-recv_into (λ buffer bytes. fault) w λ buffer bytes w'. Effect-fault w'

  pub Effect-recv_chars : (memory : ℕ → ℕ → ℕ) (w : World S) → Effect P w (recv_chars memory w)
  unfolding recv_chars
  Effect-recv_chars memory w = Effect-recv_bytes memory w.code w
