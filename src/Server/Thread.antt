-- ===== src/Server/Thread.antt =====
-- `InstanceThread` of src/main/myjqlserver.c: the requests of one client, one after another.
use my_jql.Prelude.{
  ℕ, zero, suc, ℤ, pos, negsuc, Option, none, some, List, ltb, ◌==◌, if◌then◌else◌, length,
}
use my_jql.Server.{
  max_str_len, Engine, exhausted, Action, pure, ◌>>=◌, ◌>>◌, chars, close_and_return, ask, send,
  locked, recv_code, recv_chars, send_code,
}

module _ {S : Type 0} (engine : Engine S) (memory : ℕ → ℕ → ℕ) where
  -- What is sent for the result of `myjql_get`.
  unfoldable pub send_value : Option (List ℕ) → Action S (Unit {0})
  send_value none = send_code (pos 0)
  send_value (some value) = do send_code (pos 1); send_code (pos (length value)); send (chars value)

  -- `code == 0`
  unfoldable pub serve_get : Action S (Unit {0})
  serve_get = do
    recv_code
    key ← recv_chars memory
    if ltb max_str_len (length key)
        then send_code (pos 2)
        else (do value ← locked (engine.get key (length key) max_str_len); send_value value)

  -- `code == 1`
  unfoldable pub serve_set : Action S (Unit {0})
  serve_set = do
    recv_code
    key ← recv_chars memory
    recv_code
    value ← recv_chars memory
    if ltb max_str_len (length key)
        then send_code (pos 2)
        else if ltb max_str_len (length value)
        then send_code (pos 3)
        else (do locked (engine.set key (length key) value (length value)); send_code (pos 1))

  -- `code == 2`
  unfoldable pub serve_del : Action S (Unit {0})
  serve_del = do
    recv_code
    key ← recv_chars memory
    if ltb max_str_len (length key)
        then send_code (pos 2)
        else (do locked (engine.del key (length key)); send_code (pos 1))

  -- `code == 3`, and what stands behind the loop.
  unfoldable pub serve_exit : Action S (Unit {0})
  serve_exit = do send_code (pos 1); ask; close_and_return 0

  -- The branches of one round; any other code is passed over.
  unfoldable pub dispatch : ℤ → Action S (Unit {0})
  dispatch (negsuc n) = pure tt
  dispatch (pos n) =
      if n == 0
      then serve_get
      else if n == 1
      then serve_set
      else if n == 2
      then serve_del
      else if n == 3
      then serve_exit
      else pure tt

  unfoldable pub serve_request : Action S (Unit {0})
  serve_request w = (recv_code >> λ w'. dispatch w'.code w') w

  -- The loop; the fuel bounds its rounds.
  unfoldable pub instance_thread : (fuel : ℕ) → Action S (Unit {0})
  instance_thread zero w = (exhausted, w)
  instance_thread (suc fuel) w = (serve_request >> instance_thread fuel) w
