-- ===== src/Server/Spec.antt =====
-- What the framing of src/magit_server.c promises, one byte at a time and with no buffers.
use magit.Base.{
  ℕ, ◌+◌, ◌<◌, ◌≡◌, refl, [], ◌∷◌, ◌++◌, append_assoc, append-nil, arith, Bytes, length,
  length-append, ltb, ◌==◌, if◌then◌else◌,
}
use magit.Server.{max_message_size, length_size, ntohl}

-- The bytes of a length read so far; the bytes of a payload of a given length; a refused length.
pub data Phase : Type 0 where
  header : Bytes → Phase
  body : ℕ → Bytes → Phase
  refused : Phase

pub record Spec (L : Type 0) : Type 0 where
  pub phase : Phase
  pub loop : L

-- What a full header announces.
unfoldable pub announce : Bytes → Phase
announce got =
    let n = ntohl got in
    if n == 0 then refused else if ltb max_message_size n then refused else body n []

module _ {L : Type 0} (recv : L → Bytes → L) where
  unfoldable pub feed_at : Phase → L → ℕ → Spec L
  feed_at (header got) l c =
      if ltb (length (got ++ c ∷ [])) length_size
      then record { phase = header (got ++ c ∷ []); loop = l }
      else record { phase = announce (got ++ c ∷ []); loop = l }
  feed_at (body n got) l c =
      if ltb (length (got ++ c ∷ [])) n
      then record { phase = body n (got ++ c ∷ []); loop = l }
      else record { phase = header []; loop = recv l (got ++ c ∷ []) }
  feed_at refused l c = record { phase = refused; loop = l }

  abbrev pub feed : Spec L → ℕ → Spec L
  feed s c = feed_at s.phase s.loop c

  abbrev pub feed_all : Spec L → Bytes → Spec L
  feed_all s [] = s
  feed_all s (c ∷ cs) = feed_all (feed s c) cs

  pub feed_all-append :
      (s : Spec L) (xs ys : Bytes) → feed_all s (xs ++ ys) ≡ feed_all (feed_all s xs) ys
  feed_all-append s [] ys = refl
  feed_all-append s (x ∷ xs) ys = feed_all-append (feed s x) xs ys

  pub feed_all-refused :
      (l : L) (xs : Bytes)
      → feed_all (record { phase = refused; loop = l }) xs ≡ record { phase = refused; loop = l }
  unfolding feed_at
  feed_all-refused l [] = refl
  feed_all-refused l (x ∷ xs) = feed_all-refused l xs

  -- A header that stays incomplete.
  pub feed_all-header :
      (l : L) (got xs : Bytes)
      → length got + length xs < length_size
      → feed_all (record { phase = header got; loop = l }) xs
        ≡ record { phase = header (got ++ xs); loop = l }
  unfolding feed_at
  feed_all-header l got [] h = rw append-nil
  feed_all-header l got (x ∷ xs) h =
      let short : length (got ++ x ∷ []) + length xs < length_size =
        omega (arith, length-append got (x ∷ [])) in
      ground (
        arith,
        feed_all-header l (got ++ x ∷ []) xs short,
        append_assoc got (x ∷ []) xs,
        length-append got (x ∷ []),
      )

  -- A header that is completed.
  pub feed_all-announce :
      (l : L) (got : Bytes) (x : ℕ) (xs : Bytes)
      → length got + length (x ∷ xs) ≡ length_size
      → feed_all (record { phase = header got; loop = l }) (x ∷ xs)
        ≡ record { phase = announce (got ++ x ∷ xs); loop = l }
  unfolding feed_at
  feed_all-announce l got x [] h = ground (arith, length-append got (x ∷ []))
  feed_all-announce l got x (y ∷ ys) h =
      let full : length (got ++ x ∷ []) + length (y ∷ ys) ≡ length_size =
        omega (arith, length-append got (x ∷ [])) in
      ground (
        arith,
        feed_all-announce l (got ++ x ∷ []) y ys full,
        append_assoc got (x ∷ []) (y ∷ ys),
        length-append got (x ∷ []),
      )

  pub feed_all-body :
      (l : L) (n : ℕ) (got xs : Bytes)
      → length got + length xs < n
      → feed_all (record { phase = body n got; loop = l }) xs
        ≡ record { phase = body n (got ++ xs); loop = l }
  unfolding feed_at
  feed_all-body l n got [] h = rw append-nil
  feed_all-body l n got (x ∷ xs) h =
      let short : length (got ++ x ∷ []) + length xs < n =
        omega (arith, length-append got (x ∷ [])) in
      ground (
        arith,
        feed_all-body l n (got ++ x ∷ []) xs short,
        append_assoc got (x ∷ []) xs,
        length-append got (x ∷ []),
      )

  -- A payload that is completed goes to `recv`.
  pub feed_all_deliver :
      (l : L) (n : ℕ) (got : Bytes) (x : ℕ) (xs : Bytes)
      → length got + length (x ∷ xs) ≡ n
      → feed_all (record { phase = body n got; loop = l }) (x ∷ xs)
        ≡ record { phase = header []; loop = recv l (got ++ x ∷ xs) }
  unfolding feed_at
  feed_all_deliver l n got x [] h = ground (arith, length-append got (x ∷ []))
  feed_all_deliver l n got x (y ∷ ys) h =
      let full : length (got ++ x ∷ []) + length (y ∷ ys) ≡ n =
        omega (arith, length-append got (x ∷ [])) in
      ground (
        arith,
        feed_all_deliver l n (got ++ x ∷ []) y ys full,
        append_assoc got (x ∷ []) (y ∷ ys),
        length-append got (x ∷ []),
      )
