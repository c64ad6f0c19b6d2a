-- ===== src/Server.antt =====
-- src/magit_server.c: the length-prefixed framing of requests on standard input.
-- An array is the list of its cells; `memcpy` past its end is a fault, the result `none`.
-- `data + offset` is the list of the bytes that are left, so `len - offset` is its length.
pub mod Spec
pub mod Buffers
pub mod Header
pub mod Refine
pub mod Frames
pub mod Outside
use magit.Base.{
  ℕ, zero, suc, ◌+◌, ◌*◌, min, Bool, true, false, Option, none, some, [], ◌∷◌, ◌++◌, Bytes, length,
  take, drop, replicate, ltb, leb, ◌==◌, if◌then◌else◌, sub64, memcpy, ◌>>=◌,
}

abbrev pub max_message_size : ℕ
max_message_size = 64 * 1024

abbrev pub length_size : ℕ
length_size = 4

pub data ParserState : Type 0 where
  read_length read_payload : ParserState

-- The static variables, whether `uv_close` was called on the stream, and the state `L` of the
-- event loop that `msgpack_handler_recv` works on.
pub record Parser (L : Type 0) : Type 0 where
  pub state : ParserState
  pub length_buf : Bytes
  pub length_received : ℕ
  pub payload_buf : Bytes
  pub payload_length : ℕ
  pub payload_received : ℕ
  pub closed : Bool
  pub loop : L

-- Where control goes after a part of the loop's body: back to the test, out of the function, or
-- on to the second `if`.
pub data Flow (L : Type 0) : Type 0 where
  again : Parser L → Bytes → Flow L
  leave : Parser L → Flow L
  fall : Parser L → Bytes → Flow L

-- The big-endian reading of the four bytes.
unfoldable pub ntohl : Bytes → ℕ
ntohl (a ∷ b ∷ c ∷ d ∷ _) = ((a * 256 + b) * 256 + c) * 256 + d
ntohl _ = 0

module _ {L : Type 0} where
  pub initial : L → Parser L
  initial loop = record {
    state = read_length;
    length_buf = replicate length_size 0;
    length_received = 0;
    payload_buf = replicate max_message_size 0;
    payload_length = 0;
    payload_received = 0;
    closed = false;
    loop = loop;
  }

  unfoldable pub protocol_error : Parser L → Parser L
  protocol_error p = record p { closed = true }

  unfoldable pub reset_parser : Parser L → Parser L
  reset_parser p = record p {
    state = read_length;
    length_received = 0;
    payload_length = 0;
    payload_received = 0;
  }

  -- From `g_payload_length = ntohl(network_length)` to the end of the first `if`.
  unfoldable pub begin_payload : Parser L → Bytes → Flow L
  unfolding protocol_error
  begin_payload p rest =
      let n = ntohl p.length_buf in
      let q = record p { payload_length = n } in
      if n == 0
      then leave (protocol_error q)
      else if ltb max_message_size n
      then leave (protocol_error q)
      else fall (record q { payload_received = 0; state = read_payload }) rest

  -- The first `if`, at READ_LENGTH, once `copy` is known.
  unfoldable pub length_copy : Parser L → Bytes → ℕ → Option (Flow L)
  length_copy p input copy = memcpy p.length_buf p.length_received (take copy input) >>= λ buf.
      let q = record p { length_buf = buf; length_received = p.length_received + copy } in
      some (
        if ltb (p.length_received + copy) length_size
        then again q (drop copy input)
        else begin_payload q (drop copy input))

  unfoldable pub length_step : Parser L → Bytes → Option (Flow L)
  length_step p input =
      length_copy p input (min (sub64 length_size p.length_received) (length input))

  module _ (recv : L → Bytes → L) where
    -- The second `if`, at READ_PAYLOAD, once `copy` is known.
    unfoldable pub payload_copy : Parser L → Bytes → ℕ → Option (Flow L)
    unfolding reset_parser
    payload_copy p input copy = memcpy p.payload_buf p.payload_received (take copy input) >>= λ buf.
        let q = record p { payload_buf = buf; payload_received = p.payload_received + copy } in
        some (
          if ltb (p.payload_received + copy) p.payload_length
          then again q (drop copy input)
          else again (reset_parser (record q { loop = recv p.loop (take p.payload_length buf) }))
              (drop copy input))

    unfoldable pub payload_step : Parser L → Bytes → Option (Flow L)
    payload_step p input =
        payload_copy p input (min (sub64 p.payload_length p.payload_received) (length input))

    fall_through : Flow L → Option (Flow L)
    fall_through (fall p rest) = payload_step p rest
    fall_through (again p rest) = some (again p rest)
    fall_through (leave p) = some (leave p)

    -- One round of the loop's body.
    unfoldable pub round_at : ParserState → Parser L → Bytes → Option (Flow L)
    unfolding fall_through
    round_at read_length p input = length_step p input >>= fall_through
    round_at read_payload p input = payload_step p input

    -- `while (offset < len)`; `none` is a fault, or fuel that ran out.
    unfoldable pub consume_loop : ℕ → Parser L → Bytes → Option (Parser L)
    consume_loop fuel p [] = some p
    consume_loop zero p (c ∷ cs) = none
    consume_loop (suc fuel) p (c ∷ cs) = elim (round_at p.state p (c ∷ cs)) [
      | none ↦ none
      | some (again q rest) ↦ consume_loop fuel q rest
      | some (leave q) ↦ some q
      | some (fall q rest) ↦ consume_loop fuel q rest
    ]

    unfoldable pub consume_bytes : Parser L → Bytes → Option (Parser L)
    unfolding consume_loop
    consume_bytes p input = consume_loop (length input) p input

    -- The libuv read callback: `nread` below zero (`none`), zero, or a chunk of input.
    unfoldable pub read_stdin : Parser L → Option Bytes → Option (Parser L)
    read_stdin p none = some (record p { closed = true })
    read_stdin p (some []) = some p
    read_stdin p (some (c ∷ cs)) = consume_bytes p (c ∷ cs)
