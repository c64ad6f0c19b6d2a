-- ===== src/Server/Refine.antt =====
-- The loop of src/magit_server.c implements the byte-wise framing of Spec.
use magit.Base.{
  ℕ, zero, suc, ◌≤◌, ◌<◌, ◌≡◌, refl, sym, ◌∙◌, [], ◌∷◌, arith, Bytes, length, inl, inr, Option,
  some,
}
use magit.Server.Spec.{feed_all}
use magit.Server.{
  ParserState, read_length, read_payload, Parser, round_at, consume_loop, consume_bytes,
}
use magit.Server.Buffers.{view, IsValid, payload_step-Continues}
use magit.Server.Header.{Rounds, length_step-Rounds}

module _ {L : Type 0} where
  module _ (recv : L → Bytes → L) where
    -- A round on a nonempty rest never faults.
    round_at-Rounds :
        (s : ParserState) (p : Parser L) (input : Bytes)
        → IsValid p
        → p.state ≡ s
        → 0 < length input
        → Rounds recv p input (round_at recv s p input)
    unfolding round_at
    round_at-Rounds read_payload p input v at some_input =
        let (q, rest, e, w, fed, less) = payload_step-Continues recv p input v at in
        inl (q, rest, e, w, fed, omega arith)
    round_at-Rounds read_length p input v at some_input =
        elim (length_step-Rounds recv p input v at some_input) [
          | inl (inl (q, rest, e, w, fed, less)) ↦ inl (q, rest, rw e, w, fed, less)
          | inl (inr (q, e, w, fed)) ↦ inr (q, rw e, w, fed)
          | inr (q, rest, e, w, at', fed, less) ↦
              let (r, rest', e', w', fed', less') = payload_step-Continues recv q rest w at' in
              inl (r, rest', rw (e, e'), w', fed ∙ fed', omega arith)
        ]

    abbrev pub Consumes : Parser L → Bytes → Option (Parser L) → Type 0
    Consumes p input r =
        (q : Parser L) × (r ≡ some q) × IsValid q × (feed_all recv (view p) input ≡ view q)

    consume_loop-Consumes :
        (fuel : ℕ) (p : Parser L) (input : Bytes)
        → length input ≤ fuel
        → IsValid p
        → Consumes p input (consume_loop recv fuel p input)
    unfolding consume_loop
    consume_loop-Consumes zero p [] h v = (p, refl, v, refl)
    consume_loop-Consumes (suc fuel) p [] h v = (p, refl, v, refl)
    consume_loop-Consumes zero p (c ∷ cs) h v = absurd (omega arith)
    consume_loop-Consumes (suc fuel) p (c ∷ cs) h v =
        elim (round_at-Rounds p.state p (c ∷ cs) v refl (omega arith)) [
          | inl (q, rest, e, w, fed, less) ↦
              let (r, e', w', fed') = consume_loop-Consumes fuel q rest (omega arith) w in
              (r, rw (e, consume_loop) e', w', fed ∙ fed')
          | inr (q, e, w, fed) ↦ (q, rw (e, consume_loop), w, fed)
        ]

    -- From a valid state `consume_bytes` never copies past an array and never runs out of rounds:
    -- it ends in a valid state, whose view is that of the byte-wise framing fed with the input.
    pub consume_bytes-feed_all :
        (p : Parser L) (input : Bytes)
        → IsValid p
        → (q : Parser L) × (consume_bytes recv p input ≡ some q)
          × IsValid q
          × (view q ≡ feed_all recv (view p) input)
    unfolding consume_bytes
    consume_bytes-feed_all p input v =
        let (q, e, w, fed) = consume_loop-Consumes (length input) p input (omega arith) v in
        (q, e, w, sym fed)
