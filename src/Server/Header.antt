-- ===== src/Server/Header.antt =====
-- Reading the four bytes of a length, in src/magit_server.c.
use magit.Base.{
  ℕ, ◌+◌, ◌-◌, ◌≤◌, ◌<◌, ◌≡◌, refl, sym, ap, ◌∙◌, [], ◌++◌, append-nil, arith, Bytes, length,
  length-take, length-drop, take, drop, take-all, ltb, ltb→lt, ltb→le, le→ltb, ◌⊎◌, inl, inr,
  Option, some, min, sub64, sub64_lem, Bool-cases, memcpy_fits, Copied,
}
use magit.Server.Spec.{body, refused, announce, feed_all, feed_all-refused, feed_all-header}
use magit.Server.{
  max_message_size, length_size, ntohl, read_length, read_payload, Parser, Flow, again, leave, fall,
  begin_payload, length_step, length_copy, protocol_error,
}
use magit.Server.Buffers.{
  refused-ne-body, phase_at, view, view-header, view-refused, StateInv, IsValid, feed_all-copy,
  announce_chunk,
}

module _ {L : Type 0} where
  module _ (recv : L → Bytes → L) where
    -- What `begin_payload` does with a full header.
    begin_payload_cases :
        (q : Parser L) (rest : Bytes)
        → ((announce q.length_buf ≡ refused)
            × (begin_payload q rest
                ≡ leave (protocol_error (record q { payload_length = ntohl q.length_buf }))))
          ⊎ ((announce q.length_buf ≡ body (ntohl q.length_buf) [])
              × (0 < ntohl q.length_buf)
              × (ntohl q.length_buf ≤ max_message_size)
              × (begin_payload q rest
                  ≡ fall
                      (record q {
                        payload_length = ntohl q.length_buf;
                        payload_received = 0;
                        state = read_payload;
                      })
                      rest))
    unfolding announce begin_payload
    begin_payload_cases q rest = ground arith

    -- What a round does: it goes on with less input, or returns with nothing left to do.
    abbrev pub Rounds : Parser L → Bytes → Option (Flow L) → Type 0
    Rounds p input r =
        ((q : Parser L) × (rest : Bytes) × (r ≡ some (again q rest))
          × IsValid q
          × (feed_all recv (view p) input ≡ feed_all recv (view q) rest)
          × (length rest < length input))
        ⊎ ((q : Parser L) × (r ≡ some (leave q))
            × IsValid q
            × (feed_all recv (view p) input ≡ view q))

    abbrev pub Falls : Parser L → Bytes → Option (Flow L) → Type 0
    Falls p input r =
        (q : Parser L) × (rest : Bytes) × (r ≡ some (fall q rest))
        × IsValid q
        × (q.state ≡ read_payload)
        × (feed_all recv (view p) input ≡ feed_all recv (view q) rest)
        × (length rest < length input)

    length_full :
        (p : Parser L) (input : Bytes)
        → IsValid p
        → p.state ≡ read_length
        → p.length_received < length_size
        → (copy : ℕ) → p.length_received + copy ≡ length_size
        → copy ≤ length input
        → Copied p.length_buf p.length_received (take copy input) copy
        → Rounds p input (length_copy p input copy) ⊎ Falls p input (length_copy p input copy)
    unfolding length_copy phase_at protocol_error
    length_full p input v at c copy sum fits (buf, copied, cells, front) =
        let got = take p.length_received p.length_buf in
        let chunk = take copy input in
        let whole : got ++ chunk ≡ buf =
          sym front ∙ take-all (p.length_received + copy) buf (omega (arith, v.length_cells)) in
        let announced : feed_all recv (view p) chunk
            ≡ record { phase = announce buf; loop = p.loop } =
          rw (view-header p at c, ← whole)
            (announce_chunk recv p.loop got chunk
              (omega (arith, length-take p.length_received p.length_buf))
              (omega (
                arith,
                length-take p.length_received p.length_buf,
                length-take copy input,
                v.length_cells,
              ))) in
        let less : length (drop copy input) < length input =
          omega (arith, length-drop copy input) in
        let q = record p { length_buf = buf; length_received = p.length_received + copy } in
        let tested = le→ltb (p.length_received + copy) length_size (omega arith) in
        elim (begin_payload_cases q (drop copy input)) [
          | inl (refuses, leaves) ↦ inl (
              inr (
                protocol_error (record q { payload_length = ntohl buf }),
                rw (copied, tested, leaves),
                record {
                  length_cells = cells ∙ v.length_cells;
                  payload_cells = v.payload_cells;
                  counters = rw at (inr (sum, refuses, refl));
                },
                feed_all-copy recv (view p) _ copy input
                      (announced ∙ ap (λ a. record { phase = a; loop = p.loop }) refuses)
                    ∙ feed_all-refused recv p.loop (drop copy input)
                    ∙ sym (
                        view-refused (protocol_error (record q { payload_length = ntohl buf })) at
                          sum),
              ))
          | inr (accepts, positive, bounded, falls) ↦ inr (
            record q { payload_length = ntohl buf; payload_received = 0; state = read_payload },
            drop copy input,
            rw (copied, tested, falls),
            record {
              length_cells = cells ∙ v.length_cells;
              payload_cells = v.payload_cells;
              counters = (positive, bounded);
            },
            refl,
            feed_all-copy recv (view p) _ copy input
                (announced ∙ ap (λ a. record { phase = a; loop = p.loop }) accepts),
            less,
          )
        ]

    length-Copied :
        (p : Parser L) (input : Bytes)
        → IsValid p
        → p.state ≡ read_length
        → p.length_received < length_size
        → (copy : ℕ) → copy ≡ min (length_size - p.length_received) (length input)
        → 0 < length input
        → Copied p.length_buf p.length_received (take copy input) copy
        → Rounds p input (length_copy p input copy) ⊎ Falls p input (length_copy p input copy)
    unfolding length_copy phase_at
    length-Copied p input v at c copy e some_input (buf, copied, cells, front) =
        elim (Bool-cases (ltb (p.length_received + copy) length_size)) [
          | inl more ↦
              let more' = ltb→lt (p.length_received + copy) length_size more in
              inl (
                inl (
                  record p { length_buf = buf; length_received = p.length_received + copy },
                  drop copy input,
                  rw (copied, more),
                  record {
                    length_cells = cells ∙ v.length_cells;
                    payload_cells = v.payload_cells;
                    counters = rw at (inl more');
                  },
                  feed_all-copy recv (view p) _ copy input (
                      rw
                        (
                          view-header p at c,
                          view-header
                              (record p {
                                length_buf = buf;
                                length_received = p.length_received + copy;
                              })
                              at more',
                          front,
                        )
                        (feed_all-header recv p.loop (take p.length_received p.length_buf)
                          (take copy input)
                          (omega (
                            arith,
                            length-take copy input,
                            length-take p.length_received p.length_buf,
                          )))),
                  omega (arith, length-drop copy input),
                ))
          | inr full ↦
              length_full p input v at c copy
                (omega (arith, ltb→le (p.length_received + copy) length_size full)) (omega arith)
                (buf, copied, cells, front)
        ]

    -- After a refused length every further byte is refused again.
    length_again :
        (p : Parser L) (input : Bytes)
        → IsValid p
        → p.state ≡ read_length
        → p.length_received ≡ length_size
        → announce p.length_buf ≡ refused
        → Copied p.length_buf p.length_received [] 0
        → Rounds p input (length_copy p input 0)
    unfolding length_copy protocol_error
    length_again p input v at full refuses (buf, copied, cells, front) =
        let same : buf ≡ p.length_buf =
          sym (take-all (p.length_received + 0) buf (omega (arith, v.length_cells)))
          ∙ front
          ∙ append-nil (take p.length_received p.length_buf)
          ∙ take-all p.length_received p.length_buf (omega (arith, v.length_cells)) in
        let q = record p { length_buf = buf; length_received = p.length_received + 0 } in
        let tested = le→ltb (p.length_received + 0) length_size (omega arith) in
        let refuses' : announce buf ≡ refused = ap announce same ∙ refuses in
        let r = protocol_error (record q { payload_length = ntohl buf }) in
        elim (begin_payload_cases q input) [
          | inl (_, leaves) ↦ inr (
            r,
            rw (copied, tested, leaves),
            record {
              length_cells = cells ∙ v.length_cells;
              payload_cells = v.payload_cells;
              counters = rw at (inr (omega arith, refuses', refl));
            },
            ap (λ s. feed_all recv s input) (view-refused p at full)
                ∙ feed_all-refused recv p.loop input
                ∙ sym (view-refused r at (omega arith)),
          )
          | inr (accepts, _, _, _) ↦ absurd (refused-ne-body (sym refuses' ∙ accepts))
        ]

    pub length_step-Rounds :
        (p : Parser L) (input : Bytes)
        → IsValid p
        → p.state ≡ read_length
        → 0 < length input
        → Rounds p input (length_step p input) ⊎ Falls p input (length_step p input)
    unfolding length_step
    length_step-Rounds p input v at some_input =
        let c : StateInv read_length p = rw at at v.counters in
        let need_lem = sub64_lem length_size p.length_received in
        elim c [
          | inl below ↦
              let copy = min (sub64 length_size p.length_received) (length input) in
              length-Copied p input v at below copy (omega (arith, need_lem)) some_input (
                memcpy_fits p.length_buf p.length_received (take copy input) copy
                  (omega (arith, length-take copy input)) (omega (arith, need_lem, v.length_cells)))
          | inr (full, refuses, _) ↦
              let none_left : min (sub64 length_size p.length_received) (length input) ≡ 0 =
                omega (arith, need_lem) in
              rw none_left (
                inl (
                  length_again p input v at full refuses (
                    memcpy_fits p.length_buf p.length_received [] 0 refl
                      (omega (arith, v.length_cells)))))
        ]
