-- ===== src/Server/Session.antt =====
-- `InstanceThread` of src/main/myjqlserver.c against any client: what happens to its socket, and which
-- keys and values the store sees.
use my_jql.Prelude.{
  ℕ, zero, suc, ◌+◌, ◌≤◌, ℤ, pos, negsuc, Bool-cases, Option, none, some, List, length, ltb, ltb→ge,
  if◌then◌else◌, ◌≡◌, refl, arith, inl, inr,
}
use my_jql.Server.{
  max_str_len, Engine, World, Action, exhausted, ◌>>=◌, ◌>>◌, chars, ask, locked, recv_code,
  recv_chars, send_code,
}
use my_jql.Server.Thread.{
  send_value, serve_get, serve_set, serve_del, serve_exit, dispatch, serve_request, instance_thread,
}
use my_jql.Server.Effect.{
  returns, Kept, Keeps, Effect, Grows, Effect-and_then, Effect-still, Effect-bind, Effect-pure,
  Effect-close_and_return, Effect-ask, Effect-send, Effect-locked, Effect-send_code,
  Effect-recv_code, Effect-recv_chars,
}

-- The store keeps `P` in every call with a key and a value of at most `MAX_STR_LEN` chars.
pub record EngineKeeps {S : Type 0} (P : S → Type 0) (engine : Engine S) : Type 0 where
  pub get :
      (key : List ℕ) → length key ≤ max_str_len → Keeps P (engine.get key (length key) max_str_len)
  pub set :
      (key value : List ℕ)
      → length key ≤ max_str_len
      → length value ≤ max_str_len
      → Keeps P (engine.set key (length key) value (length value))
  pub del : (key : List ℕ) → length key ≤ max_str_len → Keeps P (engine.del key (length key))

module _ {S : Type 0} {P : S → Type 0} (engine : Engine S) (memory : ℕ → ℕ → ℕ)
    (keeps : EngineKeeps P engine) where
  Effect-recv_code_then :
      {A : Type 0} (f : Action S A) (w : World S)
      → ((w' : World S) → Effect P w' (f w'))
      → Effect P w ((recv_code >> f) w)
  Effect-recv_code_then f w next =
      Effect-and_then (λ _. f) w (recv_code w) (Effect-recv_code w) λ _. next

  -- A request that starts with the length and the chars of its key.
  Effect-recv_key :
      (f : List ℕ → Action S (Unit {0})) (w : World S)
      → ((key : List ℕ) (w' : World S) → Effect P w' (f key w'))
      → Effect P w ((recv_code >> (recv_chars memory >>= f)) w)
  Effect-recv_key f w next =
      Effect-recv_code_then (recv_chars memory >>= f) w
        λ w'. Effect-bind (recv_chars memory) f w' (Effect-recv_chars memory w') next

  Effect-send_value :
      (value : Option (List ℕ)) (w : World S) → Effect P w (send_value engine memory value w)
  unfolding send_value
  Effect-send_value none w = Effect-send_code (pos 0) w
  Effect-send_value (some value) w =
      Effect-bind (send_code (pos 1)) _ w (Effect-send_code (pos 1) w) λ _ w'.
        Effect-bind (send_code (pos (length value))) _ w' (Effect-send_code (pos (length value)) w')
          λ _ w''. Effect-send (chars value) w''

  -- A length over the limit is answered with `c`, and nothing else is done.
  Effect-limit :
      (xs : List ℕ) (c : ℤ) (f : Action S (Unit {0})) (w : World S)
      → (length xs ≤ max_str_len → Effect P w (f w))
      → Effect P w ((if ltb max_str_len (length xs) then send_code c else f) w)
  Effect-limit xs c f w next = elim (Bool-cases (ltb max_str_len (length xs))) [
    | inl e ↦ rw e (Effect-send_code c w)
    | inr e ↦ rw e (next (ltb→ge max_str_len (length xs) e))
  ]

  Effect-serve_get : (w : World S) → Effect P w (serve_get engine memory w)
  unfolding serve_get
  Effect-serve_get w = Effect-recv_key _ w λ key w'. Effect-limit key (pos 2) _ w' λ short.
      Effect-bind (locked (engine.get key (length key) max_str_len)) (send_value engine memory) w'
        (Effect-locked _ w' (keeps.get key short)) Effect-send_value

  Effect-locked_then_ok :
      (call : S → Option (Unit {0} × S)) (w : World S)
      → Keeps P call
      → Effect P w ((locked call >> send_code (pos 1)) w)
  Effect-locked_then_ok call w kept =
      Effect-bind (locked call) _ w (Effect-locked call w kept) λ _. Effect-send_code (pos 1)

  Effect-serve_set : (w : World S) → Effect P w (serve_set engine memory w)
  unfolding serve_set
  Effect-serve_set w = Effect-recv_key _ w λ key w1. Effect-recv_key _ w1 λ value w2.
      Effect-limit key (pos 2) _ w2 λ short.
        Effect-limit value (pos 3) _ w2
          λ short'. Effect-locked_then_ok _ w2 (keeps.set key value short short')

  Effect-serve_del : (w : World S) → Effect P w (serve_del engine memory w)
  unfolding serve_del
  Effect-serve_del w = Effect-recv_key _ w λ key w'.
      Effect-limit key (pos 2) _ w' λ short. Effect-locked_then_ok _ w' (keeps.del key short)

  Effect-serve_exit : (w : World S) → Effect P w (serve_exit engine memory w)
  unfolding serve_exit
  Effect-serve_exit w =
      Effect-bind (send_code (pos 1)) _ w (Effect-send_code (pos 1) w)
        λ _ w1. Effect-bind ask _ w1 (Effect-ask w1) λ _ w2. Effect-close_and_return 0 w2

  Effect-dispatch : (c : ℤ) (w : World S) → Effect P w (dispatch engine memory c w)
  unfolding dispatch
  Effect-dispatch (negsuc n) w = Effect-pure tt w
  Effect-dispatch (pos n) w = ground (
    arith,
    Effect-serve_get w,
    Effect-serve_set w,
    Effect-serve_del w,
    Effect-serve_exit w,
    Effect-pure {P = P} tt w,
  )

  Effect-serve_request : (w : World S) → Effect P w (serve_request engine memory w)
  unfolding serve_request
  Effect-serve_request w =
      Effect-recv_code_then (λ w'. dispatch engine memory w'.code w') w
        λ w'. Effect-dispatch w'.code w'

  Effect-instance_thread :
      (fuel : ℕ) (w : World S) → Effect P w (instance_thread engine memory fuel w)
  unfolding instance_thread
  Effect-instance_thread zero w = Effect-still exhausted w w refl refl refl refl
  Effect-instance_thread (suc fuel) w =
      Effect-and_then (λ _. instance_thread engine memory fuel) w (serve_request engine memory w)
        (Effect-serve_request w) λ _. Effect-instance_thread fuel

-- Whatever the client sends, for any number of rounds, and whichever calls of the store and the
-- socket fail: if each call of the store with a key and a value of at most `MAX_STR_LEN` chars keeps a
-- predicate, then so does the thread.
pub instance_thread_keeps :
    {S : Type 0} (P : S → Type 0) (engine : Engine S) (memory : ℕ → ℕ → ℕ) (fuel : ℕ) (w : World S)
    → EngineKeeps P engine
    → P w.store
    → P (instance_thread engine memory fuel w).1.store
instance_thread_keeps P engine memory fuel w keeps p =
    (Effect-instance_thread engine memory keeps fuel w).keeping p

keeps_any : {S A : Type 0} (call : S → Option (A × S)) → Keeps (λ _. Unit {0}) call
keeps_any call s _ = kept_any (call s)
  where
    kept_any : {S A : Type 0} (r : Option (A × S)) → Kept (λ _. Unit {0}) r
    kept_any none = tt
    kept_any (some r) = tt

-- Whatever the client sends, for any number of rounds, and whichever calls fail: the thread has closed
-- its socket once if it has returned, with any result, and not at all if it has not, and it has taken
-- back nothing of what it has sent.
pub instance_thread_closes :
    {S : Type 0} (engine : Engine S) (memory : ℕ → ℕ → ℕ) (fuel : ℕ) (w : World S)
    → ((instance_thread engine memory fuel w).1.closes
        ≡ w.closes + returns (instance_thread engine memory fuel w).0)
      × Grows w.sent (instance_thread engine memory fuel w).1.sent
instance_thread_closes {S} engine memory fuel w =
    let keeps : EngineKeeps (λ _. Unit {0}) engine = record {
      get = λ _ _. keeps_any _;
      set = λ _ _ _ _. keeps_any _;
      del = λ _ _. keeps_any _;
    } in
    let e = Effect-instance_thread engine memory keeps fuel w in (e.closing, e.growth)
