-- ===== src/Server/Frames.antt =====
-- Whole conversations through src/magit_server.c: the chunks that libuv hands to `read_stdin`,
-- against the messages that the sender framed as src/msgpack_handler.c frames its own.
use magit.Base.{
  ℕ, ◌^◌, ◌≤◌, ◌<◌, ◌≡◌, refl, sym, ap, ◌∙◌, true, List, [], ◌∷◌, arith, Bytes, All, map, concat,
  length, ◌⊎◌, Option, none, some,
}
use magit.Message.Response.{header as frame_header, frame}
use magit.Server.Spec.{
  header, body, refused, announce, feed_all, feed_all-append, feed_all-refused, feed_all-announce,
  feed_all_deliver,
}
use magit.Server.{
  max_message_size, ntohl, ParserState, read_length, read_payload, Parser, initial, read_stdin,
}
use magit.Server.Buffers.{phase_at, view, StateInv, IsValid, initial-IsValid}
use magit.Server.Refine.{consume_bytes-feed_all}

-- The four bytes that `msgpack_handler_send` writes are the length that `consume_bytes` reads.
pub ntohl-header : (n : ℕ) → n < 2 ^ 32 → ntohl (frame_header n) ≡ n
unfolding ntohl frame_header
ntohl-header n h = omega arith

announce-header : (n : ℕ) → 0 < n → n ≤ max_message_size → announce (frame_header n) ≡ body n []
unfolding announce
announce-header n positive bounded = ground (arith, ntohl-header n)

abbrev pub IsMessage : Bytes → Type 0
IsMessage m = (0 < length m) × (length m ≤ max_message_size)

pub view-initial : {L : Type 0} (l : L) → view (initial l) ≡ record { phase = header []; loop = l }
unfolding initial phase_at
view-initial l = refl

module _ {L : Type 0} (recv : L → Bytes → L) where
  -- One read callback for each chunk.
  pub read_all : Parser L → List Bytes → Option (Parser L)
  read_all p [] = some p
  read_all p (c ∷ cs) = elim (read_stdin recv p (some c)) [ none ↦ none | some q ↦ read_all q cs ]

  abbrev pub recv_all : L → List Bytes → L
  recv_all l [] = l
  recv_all l (m ∷ ms) = recv_all (recv l m) ms

  pub read_stdin-feed_all :
      (p : Parser L) (chunk : Bytes)
      → IsValid p
      → (q : Parser L) × (read_stdin recv p (some chunk) ≡ some q)
        × IsValid q
        × (view q ≡ feed_all recv (view p) chunk)
  unfolding read_stdin
  read_stdin-feed_all p [] v = (p, refl, v, refl)
  read_stdin-feed_all p (c ∷ cs) v = consume_bytes-feed_all recv p (c ∷ cs) v

  -- However the input is cut into chunks, `read_stdin` never copies past a buffer and ends in a
  -- valid state whose view is the byte-wise framing fed with the joined input.
  pub read_all-feed_all :
      (p : Parser L) (chunks : List Bytes)
      → IsValid p
      → (q : Parser L) × (read_all p chunks ≡ some q)
        × IsValid q
        × (view q ≡ feed_all recv (view p) (concat chunks))
  unfolding read_all
  read_all-feed_all p [] v = (p, refl, v, refl)
  read_all-feed_all p (c ∷ cs) v =
      let (q, e, w, fed) = read_stdin-feed_all p c v in
      let (r, e', w', fed') = read_all-feed_all q cs w in
      (
        r,
        rw (e, read_all) e',
        w',
        fed'
            ∙ ap (λ s. feed_all recv s (concat cs)) fed
            ∙ sym (feed_all-append recv (view p) c (concat cs)),
      )

  feed_all-frame_header :
      (l : L) (n : ℕ)
      → 0 < n
      → n ≤ max_message_size
      → feed_all recv (record { phase = header []; loop = l }) (frame_header n)
        ≡ record { phase = body n []; loop = l }
  unfolding frame_header
  feed_all-frame_header l n positive bounded =
      feed_all-announce recv l [] _ _ refl
      ∙ ap (λ a. record { phase = a; loop = l }) (announce-header n positive bounded)

  feed_all-frame :
      (l : L) (m : Bytes)
      → IsMessage m
      → feed_all recv (record { phase = header []; loop = l }) (frame m)
        ≡ record { phase = header []; loop = recv l m }
  unfolding frame
  feed_all-frame l [] h = absurd (omega arith)
  feed_all-frame l (c ∷ cs) h =
      feed_all-append recv _ (frame_header (length (c ∷ cs))) (c ∷ cs)
      ∙ ap (λ s. feed_all recv s (c ∷ cs))
          (feed_all-frame_header l (length (c ∷ cs)) (omega arith) (omega arith))
      ∙ feed_all_deliver recv l (length (c ∷ cs)) [] c cs (omega arith)

  pub feed_all-frames :
      (l : L) (ms : List Bytes)
      → All IsMessage ms
      → feed_all recv (record { phase = header []; loop = l }) (concat (map frame ms))
        ≡ record { phase = header []; loop = recv_all l ms }
  feed_all-frames l [] h = refl
  feed_all-frames l (m ∷ ms) h =
      feed_all-append recv _ (frame m) (concat (map frame ms))
      ∙ ap (λ s. feed_all recv s (concat (map frame ms))) (feed_all-frame l m h.0)
      ∙ feed_all-frames (recv l m) ms h.1

  -- A refused state was closed.
  refused-closed : (q : Parser L) → IsValid q → (view q).phase ≡ refused → q.closed ≡ true
  unfolding phase_at
  refused-closed q v e = closed_at q.state refl v.counters e
    where
      closed_at :
          (s : ParserState) → q.state ≡ s → StateInv s q → phase_at s q ≡ refused → q.closed ≡ true
      closed_at read_length at c e = ground arith
      closed_at read_payload at c e = cc

  -- Messages of 1 to 65536 bytes, framed as `msgpack_handler_send` frames and cut into chunks in
  -- any way, are handed to `msgpack_handler_recv` whole, once each and in order, and the parser is
  -- then back before a header.
  pub frames-read_all :
      (l : L) (ms chunks : List Bytes)
      → All IsMessage ms
      → concat chunks ≡ concat (map frame ms)
      → (q : Parser L) × (read_all (initial l) chunks ≡ some q)
        × IsValid q
        × (view q ≡ record { phase = header []; loop = recv_all l ms })
  frames-read_all l ms chunks h e =
      let (q, r, v, fed) = read_all-feed_all (initial l) chunks (initial-IsValid l) in
      (
        q,
        r,
        v,
        fed
            ∙ ap (feed_all recv (view (initial l))) e
            ∙ ap (λ s. feed_all recv s (concat (map frame ms))) (view-initial l)
            ∙ feed_all-frames l ms h,
      )

  -- A length of 0 or of more than 65536 closes the stream, however the input is cut, and nothing
  -- that follows is handed on.
  pub refused-read_all :
      (l : L) (p : Parser L) (a b c d : ℕ) (rest : Bytes) (chunks : List Bytes)
      → IsValid p
      → view p ≡ record { phase = header []; loop = l }
      → (ntohl (a ∷ b ∷ c ∷ d ∷ []) ≡ 0) ⊎ (max_message_size < ntohl (a ∷ b ∷ c ∷ d ∷ []))
      → concat chunks ≡ a ∷ b ∷ c ∷ d ∷ rest
      → (q : Parser L) × (read_all p chunks ≡ some q) × (q.closed ≡ true) × (q.loop ≡ l)
  refused-read_all l p a b c d rest chunks v start bad e =
      let (q, r, w, fed) = read_all-feed_all p chunks v in
      let bytes = a ∷ b ∷ c ∷ d ∷ [] in
      let refuses : announce bytes ≡ refused = unfold announce in ground arith in
      let ends : view q ≡ record { phase = refused; loop = l } =
        fed
        ∙ ap (feed_all recv (view p)) e
        ∙ feed_all-append recv (view p) bytes rest
        ∙ ap (λ s. feed_all recv (feed_all recv s bytes) rest) start
        ∙ ap (λ s. feed_all recv s rest)
            (feed_all-announce recv l [] a (b ∷ c ∷ d ∷ []) refl
              ∙ ap (λ x. record { phase = x; loop = l }) refuses)
        ∙ feed_all-refused recv l rest in
      (q, r, refused-closed q w (ap (λ s. s.phase) ends), ap (λ s. s.loop) ends)
