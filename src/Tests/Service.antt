-- ===== src/Tests/Service.antt =====
-- The server of src/magit_server.c on a request whose repository cannot be opened any more.
use mathlib.Core.List.{Perm}
use magit.Base.{
  false, ℕ, ◌≡◌, refl, ap, ◌∙◌, Option, none, some, [], ◌∷◌, ◌++◌, Bytes, All, map, concat, arith,
}
use magit.Git.Api.{not_found, error, failed, Code, success, failure, Git}
use magit.Message.{
  uint, Unpacked, scan_entry, scan_entries, dispatch, recv_map, recv_unpacked, msgpack_handler_recv,
}
use magit.Message.Response.{Token, frame, header as frame_header}
use magit.Server.{Parser, initial, read_stdin}
use magit.Server.Buffers.{initial-IsValid}
use magit.Server.Frames.{IsMessage, view-initial, read_stdin-feed_all, feed_all-frames}
use magit.Server.Spec.{feed_all}
use magit.Git.Refs.{codes}
use magit.Worker.Request.{Request, Strings, put, offset, pwd, repo_path, dot_git_dir}
use magit.Worker.Handler.{Globals, git_root_worker, git_handler_queue_git_status, queue_work}
use magit.Service.{Loop, enqueue, recv, Serves, rests, goes_on, reads, comes_back}
use magit.Service.Requested.{idle, served_request, requested, answer}
use magit.Service.Conserve.{Serves-Perm}
use magit.Tests.{sample, bits}

abbrev gone : Git
gone = record sample { repository_open_ext = λ p. failed not_found }

abbrev globals : Globals gone
globals = record { repo = some tt; dot_git_dir = none }

abbrev unpack : Bytes → Option Unpacked
unpack m = some (Unpacked.map ((uint 0, uint 3) ∷ (uint 1, uint 1) ∷ []))

abbrev write : Token → Bytes
write t = []

abbrev accepts : ℕ → Code
accepts id = success

abbrev recv_here : Loop → Bytes → Loop
recv_here = recv gone bits globals unpack write accepts

abbrev message : Bytes
message = 8 ∷ 9 ∷ []

abbrev chunk : Bytes
chunk = 0 ∷ 0 ∷ 0 ∷ 2 ∷ 8 ∷ 9 ∷ []

message-IsMessage : All IsMessage (message ∷ [])
message-IsMessage = ((ground arith, ground arith), tt)

chunk-frame : concat (chunk ∷ []) ≡ concat (map frame (message ∷ []))
unfolding frame frame_header
chunk-frame = refl

abbrev strings : Strings
strings = put dot_git_dir none (put repo_path (some (codes "/w/")) (put pwd none (λ f. none)))

abbrev request : Request
request = record { id = 3; strings = strings; opened = false; is_bare = 0; result = failure error }

message-request : (recv_here idle message).pending ≡ request ∷ []
unfolding recv msgpack_handler_recv recv_unpacked recv_map dispatch enqueue scan_entries scan_entry
    git_handler_queue_git_status queue_work
message-request = refl

gone-request : git_root_worker gone bits request ≡ some request
unfolding git_root_worker put offset
gone-request = refl

-- What the input leaves: one request is pending.
after_read :
    (q : Parser Loop) × (read_stdin recv_here (initial idle) (some chunk) ≡ some q)
    × (q.loop.pending ≡ request ∷ [])
after_read =
    let (q, e, valid, viewed) =
      read_stdin-feed_all recv_here (initial idle) chunk (initial-IsValid idle) in
    (
      q,
      e,
      ap (λ v. v.loop.pending)
            (viewed
              ∙ ap (λ v. feed_all recv_here v chunk) (view-initial idle)
              ∙ ap (feed_all recv_here _) chunk-frame
              ∙ feed_all-frames recv_here idle (message ∷ []) message-IsMessage)
          ∙ message-request,
    )

-- The request is read and comes back.
served :
    (q : Parser Loop) × Serves gone bits globals unpack write accepts
      (chunk ∷ [])
      ((success, request) ∷ [])
      (initial idle)
      q
served =
    let (q, e, pending) = after_read in
    (
      _,
      goes_on (goes_on rests (reads chunk e) refl refl)
          (comes_back success [] [] request request pending gone-request) refl refl,
    )

Serves-Perm_example :
    (served.0.loop.out
      ≡ concat (map (answer gone bits globals unpack write accepts) ((success, request) ∷ [])))
    × Perm
        (map served_request ((success, request) ∷ []) ++ served.0.loop.pending)
        (concat (map (requested gone bits globals unpack write accepts) (message ∷ [])))
Serves-Perm_example =
    Serves-Perm gone bits globals unpack write accepts (message ∷ []) (chunk ∷ [])
      ((success, request) ∷ []) (served.0) message-IsMessage chunk-frame (served.1)
