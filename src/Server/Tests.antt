-- ===== src/Server/Tests.antt =====
-- Runs of the thread of src/main/myjqlserver.c with a store of one value.
use my_jql.Prelude.{
  ℕ, true, false, ◌+◌, ◌≤◌, pos, some, List, [], ◌∷◌, ◌++◌, ◌≡◌, length, refl, arith,
}
use my_jql.Server.{
  max_str_len, failure, arrived, Message, number, chars, Engine, World, returned, done, recv_code,
  recv, recv_chars, recv_bytes, take_buffer, ◌>>◌, exhausted, locked, send_code, send,
}
use my_jql.Str.{from_bytes, to_bytes}
use my_jql.Server.Thread.{dispatch, serve_set, serve_request, instance_thread}
use my_jql.Server.Effect.{returns, Grows}
use my_jql.Server.Session.{EngineKeeps, instance_thread_keeps, instance_thread_closes}
use my_jql.Server.Protocol.{Request, get, set, del, int_packet, encode, encode_all, reply, at}
use my_jql.Server.Answer.{instance_thread-answer_all}
use my_jql.Server.Dropped.{serve_request-dropped, instance_thread_spins}

-- The store holds the value that was set last.
abbrev cell : Engine (List ℕ)
cell = record {
  get = λ key key_len max_size value. some (some value, value);
  set = λ key key_len value value_len old. some (tt, value);
  del = λ key key_len old. some (tt, []);
}

-- Byte `i` of buffer `b` when it is fresh.
abbrev fresh : ℕ → ℕ → ℕ
fresh b i = 200 + b

abbrev requests : List Request
requests = set (97 ∷ []) (5 ∷ 6 ∷ []) ∷ get (97 ∷ []) ∷ del (97 ∷ []) ∷ []

abbrev replies : List Message
replies =
    number (pos 1) ∷ number (pos 1) ∷ number (pos 2) ∷ chars (5 ∷ 6 ∷ []) ∷ number (pos 1) ∷ []

instance_thread-answer_all_example :
    (m : ℕ) × (instance_thread cell fresh 4 (at false 0 [] (pos 0) (encode_all requests) [] 0)
      ≡ (returned 0, at false m [] (pos 1) [] (replies ++ number (pos 1) ∷ []) 1))
instance_thread-answer_all_example =
    instance_thread-answer_all cell fresh 4 false requests 0 [] [] (pos 0) [] replies 0
      ((omega arith, omega arith), (omega arith, (omega arith, tt))) refl (omega arith)

serve_request-dropped_example :
    (serve_request cell fresh >> serve_request cell fresh)
      (at true 0 [] (pos 0) (encode (set (97 ∷ []) (5 ∷ 6 ∷ [])) []) [] 0)
    ≡ (done tt, at true 4 (203 ∷ []) (pos 1) [] (number (pos 1) ∷ number (pos 1) ∷ []) 0)
serve_request-dropped_example =
    serve_request-dropped cell fresh 0 [] (5 ∷ 6 ∷ []) (203 ∷ []) (pos 0) (97 ∷ []) (5 ∷ 6 ∷ []) []
      0 (omega arith) (omega arith) refl refl

-- The client gets a value of five chars and closes.
abbrev five : List ℕ
five = 9 ∷ 8 ∷ 7 ∷ 6 ∷ 5 ∷ []

instance_thread_spins_example :
    instance_thread cell fresh 1000 (at true 0 five (pos 0) (encode (get (97 ∷ [])) []) [] 0)
    ≡ (exhausted, at true 1 five (pos 5) [] (reply (some five)) 0)
instance_thread_spins_example =
    instance_thread_spins cell fresh 0 five five (pos 0) (97 ∷ []) five [] 0 999 (omega arith)
      (omega arith) (omega arith) refl

-- A client whose connection fails after its first request.
abbrev broken : World (List ℕ)
broken =
    at false 0 [] (pos 0)
      (int_packet (pos 1)
        ∷ int_packet (pos 1)
        ∷ arrived (97 ∷ [])
        ∷ int_packet (pos 1)
        ∷ arrived (7 ∷ [])
        ∷ failure
        ∷ [])
      [] 0

abbrev IsShort : List ℕ → Type 0
IsShort value = length value ≤ max_str_len

cell-keeps : EngineKeeps IsShort cell
cell-keeps = record {
  get = λ key short s p. p;
  set = λ key value short short' s p. short';
  del = λ key short s p. omega arith;
}

instance_thread_keeps_example : IsShort (instance_thread cell fresh 7 broken).1.store
instance_thread_keeps_example =
    instance_thread_keeps IsShort cell fresh 7 broken cell-keeps (omega arith)

instance_thread_closes_example :
    ((instance_thread cell fresh 7 broken).1.closes
      ≡ 0 + returns (instance_thread cell fresh 7 broken).0)
    × Grows [] (instance_thread cell fresh 7 broken).1.sent
instance_thread_closes_example = instance_thread_closes cell fresh 7 broken

-- That client's value is stored, and the failure closes the socket and returns 1.
instance_thread-broken :
    instance_thread cell fresh 7 broken
    ≡ (returned 1, at false 2 (7 ∷ []) (pos 1) [] (number (pos 1) ∷ []) 1)
unfolding instance_thread serve_request dispatch serve_set recv_code recv recv_chars recv_bytes
    take_buffer locked send_code send from_bytes to_bytes
instance_thread-broken = refl
