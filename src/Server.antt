-- ===== src/Server.antt =====
-- src/main/myjqlserver.c: the thread that serves one client.
-- The socket is a script: what each `recv` returns, and whether each `send` and `shutdown` succeeds.
pub mod Thread
pub mod Effect
pub mod Session
pub mod Protocol
pub mod Wire
pub mod Given
pub mod Answer
pub mod Dropped
mod Tests
use my_jql.Prelude.{
  ℕ, zero, suc, ◌+◌, ◌^◌, ℤ, pos, negsuc, minus_one, Bool, true, false, Option, none, some, List,
  [], ◌∷◌, ◌++◌, ltb, if◌then◌else◌, length, get_or, tabulate,
}
use my_jql.Exec.{Exec}
use my_jql.Str.{to_word, from_word, to_bytes, from_bytes}

-- `MAX_STR_LEN`
abbrev pub max_str_len : ℕ
max_str_len = 1024

-- What a `recv` returns: `SOCKET_ERROR`, or at most as many bytes as it has asked for, none of them
-- if the client has closed.
pub data Packet : Type 0 where
  failure : Packet
  arrived : List ℕ → Packet

-- What a `send` hands over: an `int`, or the chars of a value.
pub data Message : Type 0 where
  number : ℤ → Message
  chars : List ℕ → Message

-- The store that the thread calls under the lock; `none` is the result -1 of `myjql_get`.
pub record Engine (S : Type 0) : Type 0 where
  pub get : (key : List ℕ) (key_len max_size : ℕ) → Exec S (Option (List ℕ))
  pub set : (key : List ℕ) (key_len : ℕ) (value : List ℕ) (value_len : ℕ) → Exec S (Unit {0})
  pub del : (key : List ℕ) (key_len : ℕ) → Exec S (Unit {0})

-- All that a thread reads and changes. `code` is its variable; `closes` counts the calls of
-- `closesocket` for its socket, and `mallocs` the buffers that it has made for what it receives.
-- `closed` says that the client closes its side behind its last packet.
pub record World (S : Type 0) : Type 0 where
  pub store : S
  pub code : ℤ
  pub packets : List Packet
  pub closed : Bool
  pub answers : List Bool
  pub sent : List Message
  pub closes : ℕ
  pub mallocs : ℕ

-- A thread goes on, has returned a number, waits for its client, has met undefined behaviour, or has
-- had more rounds than the fuel allows.
pub data Outcome (A : Type 0) : Type 0 where
  done : A → Outcome A
  returned : ℕ → Outcome A
  waiting : Outcome A
  undefined : Outcome A
  exhausted : Outcome A

abbrev pub Action : Type 0 → Type 0 → Type 0
Action S A = World S → Outcome A × World S

-- The answer of the system to the next `send` or `shutdown`; a script that has ended says yes.
abbrev pub next_answer : List Bool → Bool
next_answer [] = true
next_answer (b ∷ rest) = b

abbrev pub later_answers : List Bool → List Bool
later_answers [] = []
later_answers (b ∷ rest) = rest

module _ {S : Type 0} where
  abbrev pub and_then :
      {A B : Type 0} → Outcome A × World S → (A → Action S B) → Outcome B × World S
  and_then (done a, w) f = f a w
  and_then (returned n, w) f = (returned n, w)
  and_then (waiting, w) f = (waiting, w)
  and_then (undefined, w) f = (undefined, w)
  and_then (exhausted, w) f = (exhausted, w)

  infixl 5 ◌>>=◌ ◌>>◌
  abbrev pub ◌>>=◌ : {A B : Type 0} → Action S A → (A → Action S B) → Action S B
  ◌>>=◌ m f w = and_then (m w) f

  abbrev pub ◌>>◌ : {B : Type 0} → Action S (Unit {0}) → Action S B → Action S B
  m >> k = m >>= λ _. k

  abbrev pub pure : {A : Type 0} → A → Action S A
  pure a w = (done a, w)

  abbrev pub fault : {A : Type 0} → Action S A
  fault w = (undefined, w)

  abbrev pub set_code : ℤ → Action S (Unit {0})
  set_code code w = (done tt, record w { code = code })

  abbrev pub read_code : Action S ℤ
  read_code w = (done w.code, w)

  -- `closesocket(ClientSocket); return result;`
  unfoldable pub close_and_return : {A : Type 0} → (result : ℕ) → Action S A
  close_and_return result w = (returned result, record w { closes = w.closes + 1 })

  -- A `recv`, and the return after `SOCKET_ERROR`. Behind the last packet each `recv` returns no bytes
  -- if the client has closed, and waits if it has not.
  receive : List Packet → Action S (List ℕ)
  unfolding close_and_return
  receive [] w = if w.closed then (done [], w) else (waiting, w)
  receive (failure ∷ rest) w = close_and_return 1 (record w { packets = rest })
  receive (arrived bytes ∷ rest) w = (done bytes, record w { packets = rest })

  unfoldable pub recv : Action S (List ℕ)
  unfolding receive
  recv w = receive w.packets w

  -- A `send` or `shutdown`, and the return after `SOCKET_ERROR`.
  unfoldable pub ask : Action S (Unit {0})
  unfolding close_and_return
  ask w =
      let w' = record w { answers = later_answers w.answers } in
      if next_answer w.answers then (done tt, w') else close_and_return 1 w'

  unfoldable pub send : Message → Action S (Unit {0})
  unfolding ask
  send message w = ask (record w { sent = w.sent ++ message ∷ [] })

  -- A call of the store, between `EnterCriticalSection` and `LeaveCriticalSection`.
  unfoldable pub locked : {A : Type 0} → Exec S A → Action S A
  locked call w = elim (call w.store) [
    | none ↦ (undefined, w)
    | some (a, store) ↦ (done a, record w { store = store })
  ]

-- The `n` bytes at a buffer after `bytes` have been received there.
abbrev pub overlay : (old : ℕ → ℕ) (bytes : List ℕ) (n : ℕ) → List ℕ
overlay old bytes n = tabulate (λ i. if ltb i (length bytes) then get_or bytes i 0 else old i) 0 n

module _ {S : Type 0} where
  -- `recv(ClientSocket, (char*)&code, sizeof(code), 0)`: what does not arrive stays as it was.
  unfoldable pub recv_code : Action S (Unit {0})
  recv_code = do
    bytes ← recv
    code ← read_code
    let old = to_bytes 4 (to_word (2 ^ 32) code)
    set_code (from_word (2 ^ 32) (from_bytes 4 (overlay (λ i. get_or old i 0) bytes 4)))

  -- `malloc`: the number of the buffer.
  unfoldable pub take_buffer : Action S ℕ
  take_buffer w = (done w.mallocs, record w { mallocs = w.mallocs + 1 })

  -- `malloc(code + 1)`, and a `recv` of `code` bytes into it. `memory b` is what buffer `b` holds when
  -- it is fresh. With a negative `code` the write to the buffer behind a `recv` without an error is
  -- undefined, and `code + 1` must not overflow.
  unfoldable pub recv_bytes : (memory : ℕ → ℕ → ℕ) → ℤ → Action S (List ℕ)
  recv_bytes memory (pos n) =
      if ltb (n + 1) (2 ^ 31)
      then (do buffer ← take_buffer; bytes ← recv; pure (overlay (memory buffer) bytes n))
      else fault
  recv_bytes memory (negsuc n) = do buffer ← take_buffer; bytes ← recv; fault

  unfoldable pub recv_chars : (memory : ℕ → ℕ → ℕ) → Action S (List ℕ)
  recv_chars memory = do code ← read_code; recv_bytes memory code

  -- `code = c; send(ClientSocket, (char*)&code, sizeof(code), 0);`
  unfoldable pub send_code : ℤ → Action S (Unit {0})
  send_code c = do set_code c; send (number c)
