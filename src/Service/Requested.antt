-- ===== src/Service/Requested.antt =====
-- What the messages that src/magit_server.c reads queue, and what their requests write.
use mathlib.Core.List.{Perm, perm_middle}
use mathlib.Core.List.Perm
use magit.Base.{
  ℕ, ◌≡◌, refl, sym, ap, subst, ◌∙◌, Option, none, some, List, [], ◌∷◌, ◌++◌, append_assoc,
  append-nil, Bytes, concat, map, arith,
}
use magit.Git.Api.{Code, Git}
use magit.Git.Status.{StatusBits}
use magit.Message.{Unpacked, dispatch, recv_map, recv_unpacked, msgpack_handler_recv}
use magit.Message.Response.{
  Token, Res, frame, write_all, msgpack_handler_buf_create, msgpack_handler_send,
}
use magit.Server.Frames.{recv_all}
use magit.Worker.Request.{Request}
use magit.Worker.Handler.{Globals, after_git_root, git_root_worker}
use magit.Service.{Loop, Served, enqueue, recv, sent_bytes}

abbrev pub idle : Loop
idle = record { pending = []; out = [] }

abbrev pub served_request : Served → Request
served_request s = s.1

pub perm_more :
    (done pending whole new : List Request)
    → Perm (done ++ pending) whole
    → Perm (done ++ (pending ++ new)) (whole ++ new)
perm_more done pending whole new h =
    subst (λ l. Perm l (whole ++ new)) (append_assoc done pending new) (Perm.append_right new h)

pub perm_back :
    (done before after whole : List Request) (req : Request)
    → Perm (done ++ (before ++ req ∷ after)) whole
    → Perm ((done ++ req ∷ []) ++ (before ++ after)) whole
perm_back done before after whole req h =
    subst (λ l. Perm l whole) (sym (append_assoc done (req ∷ []) (before ++ after)))
      (Perm.trans (Perm.append_left done (Perm.symm (perm_middle before after))) h)

pub concat-append : (xss yss : List Bytes) → concat (xss ++ yss) ≡ concat xss ++ concat yss
concat-append [] yss = refl
concat-append (xs ∷ xss) yss =
    ap (◌++◌ xs) (concat-append xss yss) ∙ sym (append_assoc xs (concat xss) (concat yss))

module _ (g : Git) (b : StatusBits) (globals : Globals g) (unpack : Bytes → Option Unpacked)
    (write : Token → Bytes) (accepts : ℕ → Code) where
  abbrev pub recv_here : Loop → Bytes → Loop
  recv_here = recv g b globals unpack write accepts

  -- The requests that a message queues.
  abbrev pub requested : Bytes → List Request
  requested m = (recv_here idle m).pending

  recv-requested :
      (l : Loop) (m : Bytes) → recv_here l m ≡ record l { pending = l.pending ++ requested m }
  unfolding recv msgpack_handler_recv recv_unpacked recv_map dispatch enqueue
  recv-requested l m = ground (arith, append-nil l.pending)

  pub recv_all-requested :
      (l : Loop) (ms : List Bytes)
      → recv_all recv_here l ms ≡ record l { pending = l.pending ++ concat (map requested ms) }
  recv_all-requested l [] = simp append-nil
  recv_all-requested l (m ∷ ms) =
      ap (λ k. recv_all recv_here k ms) (recv-requested l m)
      ∙ recv_all-requested (record l { pending = l.pending ++ requested m }) ms
      ∙ simp append_assoc

  -- A response behind its length, as standard output is to hold it.
  abbrev pub framed_response : Option Res → Bytes
  framed_response none = []
  framed_response (some res) = frame (write_all write (msgpack_handler_buf_create res))

  sent_bytes-framed_response :
      (r : Option Res) → sent_bytes g b globals unpack write accepts r ≡ framed_response r
  unfolding msgpack_handler_send
  sent_bytes-framed_response none = refl
  sent_bytes-framed_response (some res) = refl

  -- What a request's coming back is to write.
  abbrev pub answer : Served → Bytes
  answer (status, req) = elim (git_root_worker g b req) [
    | none ↦ []
    | some done ↦ framed_response (after_git_root status done).sent
  ]

  pub requests-append :
      (ms ns : List Bytes)
      → concat (map requested (ms ++ ns)) ≡ concat (map requested ms) ++ concat (map requested ns)
  requests-append [] ns = refl
  requests-append (m ∷ ms) ns =
      ap (◌++◌ (requested m)) (requests-append ms ns)
      ∙ sym (append_assoc (requested m) (concat (map requested ms)) (concat (map requested ns)))

  answer_of :
      (status : Code) (req done : Request)
      → git_root_worker g b req ≡ some done
      → answer (status, req)
        ≡ sent_bytes g b globals unpack write accepts (after_git_root status done).sent
  answer_of status req done run =
      ap
        (λ w. elim w as (λ _. Bytes) [
          | none ↦ []
          | some d ↦ framed_response (after_git_root status d).sent
        ])
        run
      ∙ sym (sent_bytes-framed_response (after_git_root status done).sent)

  pub answers-append :
      (order : List Served) (status : Code) (req done : Request)
      → git_root_worker g b req ≡ some done
      → concat (map answer (order ++ (status, req) ∷ []))
        ≡ concat (map answer order)
          ++ sent_bytes g b globals unpack write accepts (after_git_root status done).sent
  answers-append [] status req done run =
      append-nil (answer (status, req)) ∙ answer_of status req done run
  answers-append (s ∷ order) status req done run =
      ap (◌++◌ (answer s)) (answers-append order status req done run)
      ∙ sym (append_assoc (answer s) (concat (map answer order)) _)
