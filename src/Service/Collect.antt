-- ===== src/Service/Collect.antt =====
-- The framing of src/magit_server.c hands on the same messages whatever the loop does with them.
use magit.Base.{
  ℕ, ◌≡◌, refl, sym, ap, ◌∙◌, List, [], ◌∷◌, ◌++◌, append_assoc, append-nil, Bytes, Bool-cases, inl,
  inr, length, ltb,
}
use magit.Server.{length_size}
use magit.Server.Frames.{recv_all}
use magit.Server.Spec.{Phase, header, body, refused, Spec, feed_at, feed, feed_all}

abbrev pub collect : List Bytes → Bytes → List Bytes
collect ms m = ms ++ m ∷ []

module _ {L : Type 0} (recv : L → Bytes → L) where
  recv_all-append :
      (l : L) (ms ns : List Bytes)
      → recv_all recv l (ms ++ ns) ≡ recv_all recv (recv_all recv l ms) ns
  recv_all-append l [] ns = refl
  recv_all-append l (m ∷ ms) ns = recv_all-append (recv l m) ms ns

  -- A loop that recv_alled the messages that a list collected.
  abbrev pub with_loop : L → Spec (List Bytes) → Spec L
  with_loop l s = record { phase = s.phase; loop = recv_all recv l s.loop }

  feed_at-collect :
      (l : L) (ph : Phase) (ms : List Bytes) (c : ℕ)
      → feed_at recv ph (recv_all recv l ms) c ≡ with_loop l (feed_at collect ph ms c)
  unfolding feed_at
  feed_at-collect l (header got) ms c =
      elim (Bool-cases (ltb (length (got ++ c ∷ [])) length_size)) [ inl e ↦ rw e | inr e ↦ rw e ]
  feed_at-collect l (body n got) ms c = elim (Bool-cases (ltb (length (got ++ c ∷ [])) n)) [
    | inl e ↦ rw e
    | inr e ↦ rw (e, recv_all-append l ms ((got ++ c ∷ []) ∷ []))
  ]
  feed_at-collect l refused ms c = refl

  pub feed_all-collect :
      (l : L) (s : Spec (List Bytes)) (xs : Bytes)
      → feed_all recv (with_loop l s) xs ≡ with_loop l (feed_all collect s xs)
  feed_all-collect l s [] = refl
  feed_all-collect l s (x ∷ xs) =
      ap (λ t. feed_all recv t xs) (feed_at-collect l s.phase s.loop x)
      ∙ feed_all-collect l (feed collect s x) xs

pub recv_all-collect : (ms ns : List Bytes) → recv_all collect ms ns ≡ ms ++ ns
recv_all-collect ms [] = sym (append-nil ms)
recv_all-collect ms (n ∷ ns) = recv_all-collect (ms ++ n ∷ []) ns ∙ append_assoc ms (n ∷ []) ns
