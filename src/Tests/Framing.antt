-- ===== src/Tests/Framing.antt =====
-- The framing of src/magit_server.c, with a loop that lists the messages it was handed.
use magit.Base.{◌≡◌, refl, inl, true, some, List, [], ◌∷◌, ◌++◌, Bytes, All, map, concat, arith}
use magit.Server.{ntohl, Parser, initial, consume_bytes}
use magit.Message.Response.{frame, header as frame_header}
use magit.Server.Spec.{header, feed_all}
use magit.Server.Buffers.{view, IsValid, initial-IsValid}
use magit.Server.Refine.{consume_bytes-feed_all}
use magit.Server.Frames.{
  IsMessage, read_all, recv_all, read_all-feed_all, frames-read_all, view-initial, refused-read_all,
}

abbrev collect : List Bytes → Bytes → List Bytes
collect l m = l ++ m ∷ []

abbrev fresh : Parser (List Bytes)
fresh = initial []

-- A message of two bytes behind its length, cut within the length.
abbrev pieces : List Bytes
pieces = (0 ∷ 0 ∷ []) ∷ (0 ∷ 2 ∷ 8 ∷ []) ∷ (9 ∷ []) ∷ []

consume_bytes-feed_all_example :
    (q : Parser (List Bytes)) × (consume_bytes collect fresh (0 ∷ 0 ∷ 0 ∷ 1 ∷ 8 ∷ []) ≡ some q)
    × IsValid q
    × (view q ≡ feed_all collect (view fresh) (0 ∷ 0 ∷ 0 ∷ 1 ∷ 8 ∷ []))
consume_bytes-feed_all_example =
    consume_bytes-feed_all collect fresh (0 ∷ 0 ∷ 0 ∷ 1 ∷ 8 ∷ []) (initial-IsValid [])

read_all-feed_all_example :
    (q : Parser (List Bytes)) × (read_all collect fresh pieces ≡ some q)
    × IsValid q
    × (view q ≡ feed_all collect (view fresh) (concat pieces))
read_all-feed_all_example = read_all-feed_all collect fresh pieces (initial-IsValid [])

one-IsMessage : All IsMessage ((8 ∷ 9 ∷ []) ∷ [])
one-IsMessage = ((ground arith, ground arith), tt)

pieces-frames : concat pieces ≡ concat (map frame ((8 ∷ 9 ∷ []) ∷ []))
unfolding frame frame_header
pieces-frames = refl

frames-read_all_example :
    (q : Parser (List Bytes)) × (read_all collect (initial []) pieces ≡ some q)
    × IsValid q
    × (view q ≡ record { phase = header []; loop = recv_all collect [] ((8 ∷ 9 ∷ []) ∷ []) })
frames-read_all_example =
    frames-read_all collect [] ((8 ∷ 9 ∷ []) ∷ []) pieces one-IsMessage pieces-frames

zero_length : ntohl (0 ∷ 0 ∷ 0 ∷ 0 ∷ []) ≡ 0
unfolding ntohl
zero_length = refl

refused-read_all_example :
    (q : Parser (List Bytes)) × (read_all collect fresh ((0 ∷ 0 ∷ 0 ∷ []) ∷ (0 ∷ 7 ∷ []) ∷ [])
      ≡ some q)
    × (q.closed ≡ true)
    × (q.loop ≡ [])
refused-read_all_example =
    refused-read_all collect [] fresh 0 0 0 0 (7 ∷ []) ((0 ∷ 0 ∷ 0 ∷ []) ∷ (0 ∷ 7 ∷ []) ∷ [])
      (initial-IsValid []) (view-initial []) (inl zero_length) refl
