-- ===== src/Server/Buffers.antt =====
-- The buffers of src/magit_server.c: the view of a state, the invariant, and copies into the payload.
use magit.Base.{
  ℕ, ◌+◌, ◌-◌, ◌≤◌, ◌<◌, ◌≡◌, ◌≢◌, refl, sym, ap, ◌∙◌, true, [], ◌∷◌, ◌++◌, arith, Bytes, length,
  length-take, length-drop, take, drop, take-append-drop, ltb, ltb→lt, ltb→le, lt→ltb, le→ltb,
  if◌then◌else◌, ◌⊎◌, inl, inr, Option, some, min, sub64, sub64_lem, Bool-cases, length-replicate,
  Copied, memcpy_fits,
}
use magit.Server.Spec.{
  Phase, header, body, refused, Spec, announce, feed_all, feed_all-append, feed_all-announce,
  feed_all-body, feed_all_deliver,
}
use magit.Server.{
  max_message_size, length_size, ParserState, read_length, read_payload, Parser, Flow, again,
  initial, payload_copy, reset_parser, payload_step,
}

pub refused-ne-body : {n : ℕ} {got : Bytes} → refused ≢ body n got
refused-ne-body h = cc

module _ {L : Type 0} where
  unfoldable pub phase_at : ParserState → Parser L → Phase
  phase_at read_length p =
      if ltb p.length_received length_size
      then header (take p.length_received p.length_buf)
      else refused
  phase_at read_payload p = body p.payload_length (take p.payload_received p.payload_buf)

  abbrev pub view : Parser L → Spec L
  view p = record { phase = phase_at p.state p; loop = p.loop }

  pub view-header :
      (p : Parser L)
      → p.state ≡ read_length
      → p.length_received < length_size
      → view p ≡ record { phase = header (take p.length_received p.length_buf); loop = p.loop }
  unfolding phase_at
  view-header p at h = rw at (rw (lt→ltb p.length_received length_size h))

  pub view-refused :
      (p : Parser L)
      → p.state ≡ read_length
      → p.length_received ≡ length_size
      → view p ≡ record { phase = refused; loop = p.loop }
  unfolding phase_at
  view-refused p at e = rw at (rw (le→ltb p.length_received length_size (omega arith)))

  abbrev pub StateInv : ParserState → Parser L → Type 0
  StateInv read_length p =
      (p.length_received < length_size)
      ⊎ ((p.length_received ≡ length_size) × (announce p.length_buf ≡ refused) × (p.closed ≡ true))
  StateInv read_payload p =
      (p.payload_received < p.payload_length) × (p.payload_length ≤ max_message_size)

  -- The arrays keep their sizes, and the counters stay within them.
  pub record IsValid (p : Parser L) : Type 0 where
    pub length_cells : length p.length_buf ≡ length_size
    pub payload_cells : length p.payload_buf ≡ max_message_size
    pub counters : StateInv p.state p

  pub initial-IsValid : (l : L) → IsValid (initial l)
  unfolding initial
  initial-IsValid l = record {
    length_cells = refl;
    payload_cells = length-replicate {A = ℕ} max_message_size 0;
    counters = inl (omega arith);
  }

  module _ (recv : L → Bytes → L) where
    -- The copy is a prefix of the input, and the rest is fed later.
    pub feed_all-copy :
        (s t : Spec L) (n : ℕ) (input : Bytes)
        → feed_all recv s (take n input) ≡ t
        → feed_all recv s input ≡ feed_all recv t (drop n input)
    feed_all-copy s t n input e =
        ap (feed_all recv s) (sym (take-append-drop n input))
        ∙ feed_all-append recv s (take n input) (drop n input)
        ∙ ap (λ u. feed_all recv u (drop n input)) e

    -- A nonempty copy that completes the payload.
    deliver_chunk :
        (l : L) (n : ℕ) (got chunk : Bytes)
        → length got < n
        → length got + length chunk ≡ n
        → feed_all recv (record { phase = body n got; loop = l }) chunk
          ≡ record { phase = header []; loop = recv l (got ++ chunk) }
    deliver_chunk l n got [] h e = absurd (omega arith)
    deliver_chunk l n got (x ∷ xs) h e = feed_all_deliver recv l n got x xs e

    pub announce_chunk :
        (l : L) (got chunk : Bytes)
        → length got < length_size
        → length got + length chunk ≡ length_size
        → feed_all recv (record { phase = header got; loop = l }) chunk
          ≡ record { phase = announce (got ++ chunk); loop = l }
    announce_chunk l got [] h e = absurd (omega arith)
    announce_chunk l got (x ∷ xs) h e = feed_all-announce recv l got x xs e

    abbrev pub Continues : Parser L → Bytes → Option (Flow L) → Type 0
    Continues p input r =
        (q : Parser L) × (rest : Bytes) × (r ≡ some (again q rest))
        × IsValid q
        × (feed_all recv (view p) input ≡ feed_all recv (view q) rest)
        × (length rest ≤ length input - 1)

    payload-Copied :
        (p : Parser L) (input : Bytes)
        → IsValid p
        → p.state ≡ read_payload
        → StateInv read_payload p
        → (copy : ℕ) → copy ≡ min (p.payload_length - p.payload_received) (length input)
        → Copied p.payload_buf p.payload_received (take copy input) copy
        → Continues p input (payload_copy recv p input copy)
    unfolding payload_copy phase_at
    payload-Copied p input v at c copy e (buf, copied, cells, front) =
        let chunk = take copy input in
        let got = take p.payload_received p.payload_buf in
        let chunk_length : length chunk ≡ copy = omega (arith, length-take copy input) in
        let got_length : length got ≡ p.payload_received =
          omega (arith, length-take p.payload_received p.payload_buf, v.payload_cells) in
        let rest_length : length (drop copy input) ≤ length input - 1 =
          omega (arith, length-drop copy input) in
        elim (Bool-cases (ltb (p.payload_received + copy) p.payload_length)) [
          | inl more ↦
              let more' = ltb→lt (p.payload_received + copy) p.payload_length more in
              (
                record p { payload_buf = buf; payload_received = p.payload_received + copy },
                drop copy input,
                rw (copied, more),
                record {
                  length_cells = v.length_cells;
                  payload_cells = cells ∙ v.payload_cells;
                  counters = rw at (more', c.1);
                },
                feed_all-copy (view p) _ copy input (
                    rw at (
                      rw front
                        (feed_all-body recv p.loop p.payload_length got chunk (omega arith)))),
                rest_length,
              )
          | inr full ↦
              let full' = ltb→le (p.payload_received + copy) p.payload_length full in
              let sum : p.payload_received + copy ≡ p.payload_length = omega arith in
              (
                reset_parser (record p {
                  payload_buf = buf;
                  payload_received = p.payload_received + copy;
                  loop = recv p.loop (take p.payload_length buf);
                }),
                drop copy input,
                rw (copied, full),
                record {
                  length_cells = v.length_cells;
                  payload_cells = cells ∙ v.payload_cells;
                  counters = inl (omega arith);
                },
                feed_all-copy (view p) _ copy input (
                    rw at (
                      rw (← sum) (
                        rw front (
                          deliver_chunk p.loop (p.payload_received + copy) got chunk (omega arith)
                            (omega arith))))),
                rest_length,
              )
        ]

    -- One copy into the payload buffer, of `copy` bytes.
    pub payload_step-Continues :
        (p : Parser L) (input : Bytes)
        → IsValid p
        → p.state ≡ read_payload
        → Continues p input (payload_step recv p input)
    unfolding payload_step
    payload_step-Continues p input v at =
        let c : StateInv read_payload p = rw at at v.counters in
        let copy = min (sub64 p.payload_length p.payload_received) (length input) in
        let need_lem = sub64_lem p.payload_length p.payload_received (omega arith) (omega arith) in
        payload-Copied p input v at c copy (omega (arith, need_lem)) (
          memcpy_fits p.payload_buf p.payload_received (take copy input) copy
            (omega (arith, length-take copy input)) (omega (arith, need_lem, v.payload_cells)))
