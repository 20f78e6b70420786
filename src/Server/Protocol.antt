-- ===== src/Server/Protocol.antt =====
-- The protocol of src/main/myjqlserver.c: the requests that a client can send, as packets, and what
-- each of them asks of the store.
use my_jql.Prelude.{
  ℕ, Bool, ◌+◌, ◌^◌, ◌<◌, ℤ, pos, Option, none, some, List, [], ◌∷◌, ◌++◌, length, ltb,
  if◌then◌else◌,
}
use my_jql.Str.{to_word, to_bytes}
use my_jql.Server.{max_str_len, Packet, arrived, Message, number, chars, Engine, World}

-- The requests of the comments `recv: 0 key_len key`, `recv: 1 key_len key value_len value` and
-- `recv: 2 key_len key`.
pub data Request : Type 0 where
  get : (key : List ℕ) → Request
  set : (key value : List ℕ) → Request
  del : (key : List ℕ) → Request

abbrev pub int_packet : ℤ → Packet
int_packet z = arrived (to_bytes 4 (to_word (2 ^ 32) z))

abbrev pub field : List ℕ → List Packet → List Packet
field xs rest = int_packet (pos (length xs)) ∷ arrived xs ∷ rest

-- The packets of a request, in front of those that follow.
abbrev pub encode : Request → List Packet → List Packet
encode (get key) rest = int_packet (pos 0) ∷ field key rest
encode (set key value) rest = int_packet (pos 1) ∷ field key (field value rest)
encode (del key) rest = int_packet (pos 2) ∷ field key rest

-- The packets of a whole session, which ends with `recv: 3`.
abbrev pub encode_all : List Request → List Packet
encode_all [] = int_packet (pos 3) ∷ []
encode_all (r ∷ rs) = encode r (encode_all rs)

-- Lengths for which `malloc(code + 1)` does not overflow.
abbrev pub IsSendable : Request → Type 0
IsSendable (get key) = length key + 1 < 2 ^ 31
IsSendable (set key value) = (length key + 1 < 2 ^ 31) × (length value + 1 < 2 ^ 31)
IsSendable (del key) = length key + 1 < 2 ^ 31

-- `send: 0 (not found)` or `1 value_len value`
abbrev pub reply : Option (List ℕ) → List Message
reply none = number (pos 0) ∷ []
reply (some value) = number (pos 1) ∷ number (pos (length value)) ∷ chars value ∷ []

-- What the comments promise for a request: the messages, and the call of the store.
abbrev pub answer : {S : Type 0} → Engine S → Request → S → Option (List Message × S)
answer engine (get key) s =
    if ltb max_str_len (length key)
    then some (number (pos 2) ∷ [], s)
    else elim (engine.get key (length key) max_str_len s) [
      | none ↦ none
      | some (value, s') ↦ some (reply value, s')
    ]
answer engine (set key value) s =
    if ltb max_str_len (length key)
    then some (number (pos 2) ∷ [], s)
    else if ltb max_str_len (length value)
    then some (number (pos 3) ∷ [], s)
    else elim (engine.set key (length key) value (length value) s) [
      | none ↦ none
      | some (_, s') ↦ some (number (pos 1) ∷ [], s')
    ]
answer engine (del key) s =
    if ltb max_str_len (length key)
    then some (number (pos 2) ∷ [], s)
    else elim (engine.del key (length key) s) [
      | none ↦ none
      | some (_, s') ↦ some (number (pos 1) ∷ [], s')
    ]

abbrev pub answer_all : {S : Type 0} → Engine S → List Request → S → Option (List Message × S)
answer_all engine [] s = some ([], s)
answer_all engine (r ∷ rs) s = elim (answer engine r s) [
  | none ↦ none
  | some (ms, s') ↦ elim (answer_all engine rs s') [
    | none ↦ none
    | some (more, s'') ↦ some (ms ++ more, s'')
  ]
]

-- A thread whose sends all succeed, and which has made `m` buffers.
abbrev pub at : {S : Type 0} → Bool → ℕ → S → ℤ → List Packet → List Message → ℕ → World S
at closed m s code packets sent closes = record {
  store = s;
  code = code;
  packets = packets;
  closed = closed;
  answers = [];
  sent = sent;
  closes = closes;
  mallocs = m;
}
