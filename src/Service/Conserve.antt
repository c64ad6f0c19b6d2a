-- ===== src/Service/Conserve.antt =====
-- No request is lost, invented or answered twice, whatever the order in which input arrives and
-- work comes back.
use mathlib.Core.List.{Perm, map-append}
use mathlib.Core.List.Perm
use magit.Base.{
  ℕ, ◌≡◌, sym, ap, subst, ◌∙◌, Option, some, List, [], ◌∷◌, ◌++◌, append-nil, Bytes, concat, map,
  All,
}
use magit.Git.Api.{Code, Git}
use magit.Git.Status.{StatusBits}
use magit.Message.{Unpacked}
use magit.Message.Response.{Token, frame}
use magit.Server.{Parser, initial, read_stdin}
use magit.Server.Spec.{Phase, header, Spec, feed_all, feed_all-append}
use magit.Server.Buffers.{view, IsValid, initial-IsValid}
use magit.Server.Frames.{IsMessage, view-initial, read_stdin-feed_all, feed_all-frames, recv_all}
use magit.Server.Outside.{phase_at-loop, IsValid-loop}
use magit.Worker.Request.{Request}
use magit.Worker.Handler.{Globals, after_git_root, git_root_worker}
use magit.Service.{Loop, Served, sent_bytes, reads, comes_back, Serves, rests, goes_on}
use magit.Service.Collect.{collect, feed_all-collect, recv_all-collect}
use magit.Service.Requested.{
  idle, served_request, perm_more, perm_back, concat-append, recv_here, requested,
  recv_all-requested, answer, requests-append, answers-append,
}

module _ (g : Git) (b : StatusBits) (globals : Globals g) (unpack : Bytes → Option Unpacked)
    (write : Token → Bytes) (accepts : ℕ → Code) where
  abbrev start : Spec (List Bytes)
  start = record { phase = header []; loop = [] }

  -- After some chunks, and the requests that came back so far: the messages that the chunks held.
  record Kept (chunks : List Bytes) (order : List Served) (p : Parser Loop) : Type 0 where
    messages : List Bytes
    valid : IsValid p
    fed :
        feed_all collect start (concat chunks) ≡ record { phase = (view p).phase; loop = messages }
    written : p.loop.out ≡ concat (map (answer g b globals unpack write accepts) order)
    conserved :
        Perm
          (map served_request order ++ p.loop.pending)
          (concat (map (requested g b globals unpack write accepts) messages))

  Kept-initial : Kept [] [] (initial idle)
  Kept-initial = record {
    messages = [];
    valid = initial-IsValid idle;
    fed = ap (λ v. record { phase = v.phase; loop = [] }) (sym (view-initial idle));
    written = ap (λ v. v.loop.out) (view-initial idle);
    conserved = subst (λ v. Perm v.loop.pending []) (sym (view-initial idle)) (Perm.refl []);
  }

  -- The loop and the messages after one more chunk.
  chunk-collect :
      (ph : Phase) (l : Loop) (ms : List Bytes) (chunk : Bytes)
      → (s : Spec (List Bytes)) × (feed_all
            (recv_here g b globals unpack write accepts)
            (record { phase = ph; loop = l })
            chunk
          ≡ record {
            phase = s.phase;
            loop = record l {
              pending =
                  l.pending ++ concat (map (requested g b globals unpack write accepts) s.loop);
            };
          })
        × (feed_all collect (record { phase = ph; loop = ms }) chunk
            ≡ record { phase = s.phase; loop = ms ++ s.loop })
  chunk-collect ph l ms chunk =
      let from : Spec (List Bytes) = record { phase = ph; loop = [] } in
      let s = feed_all collect from chunk in
      (
        s,
        feed_all-collect (recv_here g b globals unpack write accepts) l from chunk
            ∙ ap (λ k. record { phase = s.phase; loop = k })
                (recv_all-requested g b globals unpack write accepts l s.loop),
        feed_all-collect collect ms from chunk
            ∙ ap (λ k. record { phase = s.phase; loop = k }) (recv_all-collect ms s.loop),
      )

  Kept-reads :
      (chunks : List Bytes) (order : List Served) (p q : Parser Loop) (chunk : Bytes)
      → read_stdin (recv_here g b globals unpack write accepts) p (some chunk) ≡ some q
      → Kept chunks order p
      → Kept (chunks ++ chunk ∷ []) order q
  Kept-reads chunks order p q chunk e k =
      let (r, e', valid, viewed) =
        read_stdin-feed_all (recv_here g b globals unpack write accepts) p chunk k.valid in
      let (s, looped, collected) = chunk-collect (view p).phase p.loop k.messages chunk in
      let same : r ≡ q = cc in
      let viewed' : view q ≡ record {
        phase = s.phase;
        loop = record p.loop {
          pending =
              p.loop.pending ++ concat (map (requested g b globals unpack write accepts) s.loop);
        };
      } =
        ap view (sym same) ∙ viewed ∙ looped in
      record {
        messages = k.messages ++ s.loop;
        valid = subst IsValid same valid;
        fed =
            ap (feed_all collect start) (concat-append chunks (chunk ∷ []))
            ∙ feed_all-append collect start (concat chunks) (chunk ++ [])
            ∙ ap (λ t. feed_all collect t (chunk ++ [])) k.fed
            ∙ ap (feed_all collect (record { phase = (view p).phase; loop = k.messages }))
                (append-nil chunk)
            ∙ collected
            ∙ ap (λ v. record { phase = v.phase; loop = k.messages ++ s.loop }) (sym viewed');
        written = ap (λ v. v.loop.out) viewed' ∙ k.written;
        conserved =
            subst (λ a. Perm (map served_request order ++ q.loop.pending) a)
              (sym (requests-append g b globals unpack write accepts k.messages s.loop))
              (subst
                (λ a. Perm (map served_request order ++ a) (
                  concat (map (requested g b globals unpack write accepts) k.messages)
                  ++ concat (map (requested g b globals unpack write accepts) s.loop)))
                (sym (ap (λ v. v.loop.pending) viewed'))
                (perm_more (map served_request order) p.loop.pending
                  (concat (map (requested g b globals unpack write accepts) k.messages))
                  (concat (map (requested g b globals unpack write accepts) s.loop)) k.conserved));
      }

  Kept-comes_back :
      (chunks : List Bytes) (order : List Served) (p : Parser Loop) (status : Code)
      (before after : List Request) (req done : Request)
      → p.loop.pending ≡ before ++ req ∷ after
      → git_root_worker g b req ≡ some done
      → Kept chunks order p
      → Kept chunks (order ++ (status, req) ∷ []) (record p {
        loop = record {
          pending = before ++ after;
          out =
              p.loop.out
              ++ sent_bytes g b globals unpack write accepts (after_git_root status done).sent;
        };
      })
  Kept-comes_back chunks order p status before after req done e run k = record {
    messages = k.messages;
    valid = IsValid-loop p _ k.valid;
    fed = k.fed ∙ ap (λ ph. record { phase = ph; loop = k.messages }) (phase_at-loop p _ p.state);
    written =
        ap (λ o. o ++ sent_bytes g b globals unpack write accepts (after_git_root status done).sent)
          k.written
        ∙ sym (answers-append g b globals unpack write accepts order status req done run);
    conserved =
        subst
          (λ a.
            Perm (a ++ (before ++ after))
              (concat (map (requested g b globals unpack write accepts) k.messages)))
          (sym (map-append served_request order ((status, req) ∷ [])))
          (perm_back (map served_request order) before after _ req (
            subst
              (λ a.
                Perm (map served_request order ++ a)
                  (concat (map (requested g b globals unpack write accepts) k.messages)))
              e k.conserved));
  }

  Serves-Kept :
      {chunks : List Bytes} {order : List Served} {q : Parser Loop}
      → Serves g b globals unpack write accepts chunks order (initial idle) q
      → Kept chunks order q
  Serves-Kept rests = Kept-initial
  Serves-Kept
        (goes_on {chunks = chunks} {order = order} {all = every} served
          (reads {p = p} {q = q} chunk e)
          whole
          all) =
      subst (λ c. Kept c every q) (sym whole)
        (subst (λ o. Kept (chunks ++ chunk ∷ []) o q) (sym (all ∙ append-nil order))
          (Kept-reads chunks order p q chunk e (Serves-Kept served)))
  Serves-Kept
        (goes_on {chunks = chunks} {order = order} {all = every} served
          (comes_back {p = p} status before after req done e run)
          whole
          all) =
      let q : Parser Loop = record p {
        loop = record {
          pending = before ++ after;
          out =
              p.loop.out
              ++ sent_bytes g b globals unpack write accepts (after_git_root status done).sent;
        };
      } in
      subst (λ c. Kept c every q) (sym (whole ∙ append-nil chunks))
        (subst (λ o. Kept chunks o q) (sym all)
          (Kept-comes_back chunks order p status before after req done e run (Serves-Kept served)))

  -- While the server reads framed messages of 1 to 65536 bytes, cut into chunks in any way, and the
  -- work that they queue comes back in any order in between, with any statuses, standard output
  -- holds, in the order in which the requests came back and with nothing in between, the framed
  -- response of each of them that is answered with its status; and these requests with those
  -- still pending are, up to order, exactly the requests that the messages queue. So none is
  -- lost, invented or answered twice.
  pub Serves-Perm :
      (ms chunks : List Bytes) (order : List Served) (q : Parser Loop)
      → All IsMessage ms
      → concat chunks ≡ concat (map frame ms)
      → Serves g b globals unpack write accepts chunks order (initial idle) q
      → (q.loop.out ≡ concat (map (answer g b globals unpack write accepts) order))
        × Perm
            (map served_request order ++ q.loop.pending)
            (concat (map (requested g b globals unpack write accepts) ms))
  Serves-Perm ms chunks order q h e served =
      let k = Serves-Kept served in
      let fed : record { phase = (view q).phase; loop = k.messages }
          ≡ record { phase = header []; loop = recv_all collect [] ms } =
        sym k.fed ∙ ap (feed_all collect start) e ∙ feed_all-frames collect [] ms h in
      let all : k.messages ≡ ms = ap (λ s. s.loop) fed ∙ recv_all-collect [] ms in
      (
        k.written,
        subst
            (λ n.
              Perm (map served_request order ++ q.loop.pending)
                (concat (map (requested g b globals unpack write accepts) n)))
            all k.conserved,
      )
