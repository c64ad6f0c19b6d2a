-- ===== src/Git/Capture/Loop.antt =====
-- The loop of `run_git_capture` in src/git_handler.c around `poll`: how it ends.
use magit.Base.{
  ◌<◌, ◌≡◌, refl, sym, ap, subst, ◌∙◌, Bool, true, false, ◌||◌, Option, some, List, [], ◌∷◌, ◌++◌,
  append_assoc, append-nil, Bytes, Bool-cases, inl, inr,
}
use magit.Git.Api.{GitError, success, failure}
use magit.Git.Store.{Code-cases}
use magit.Git.Capture.{
  Poll, poll_interrupted, poll_failed, ready, Capture, error_size, text, Polled, polling, left,
  poll_loop,
}
use magit.Git.Capture.Reads.{IsValid, round_text, stdout_stays, stderr_stays, poll_round_lem}

-- Whether an output is still open behind these events, and the bytes of standard output among them.
abbrev pub stdout_still : Bool → List Poll → Bool
stdout_still false ps = false
stdout_still true [] = true
stdout_still true (p ∷ ps) = stdout_still (stdout_stays true p) ps

abbrev pub stderr_still : Bool → List Poll → Bool
stderr_still false ps = false
stderr_still true [] = true
stderr_still true (p ∷ ps) = stderr_still (stderr_stays true p) ps

abbrev pub stdout_of : Bool → List Poll → Bytes
stdout_of false ps = []
stdout_of true [] = []
stdout_of true (p ∷ ps) = round_text true p ++ stdout_of (stdout_stays true p) ps

-- How the loop ends from a state whose text was `before`.
unfoldable pub Loop : Bool → Bool → Bytes → List Poll → Polled → Type 0
Loop b0 b1 before ps (polling d) =
    ((stdout_still b0 ps || stderr_still b1 ps) ≡ true) × (d.error_length < error_size)
Loop b0 b1 before ps (left d) =
    (c0 : Bool) × (c1 : Bool) × IsValid c0 c1 d
    × ((x : Bytes) × (text d.out ≡ before ++ x))
    × (d.ret ≡ success
        → (text d.out ≡ before ++ stdout_of b0 ps)
          × (stdout_still b0 ps ≡ false)
          × (stderr_still b1 ps ≡ false))

or-false : (b0 b1 : Bool) → (b0 || b1) ≡ false → (b0 ≡ false) × (b1 ≡ false)
or-false true b1 h = cc
or-false false b1 h = (refl, h)

open_flags :
    (b0 b1 : Bool) (c : Capture) (b : Bool)
    → IsValid b0 b1 c
    → (b0 || b1) ≡ b
    → (c.stdout_open || c.stderr_open) ≡ b
open_flags b0 b1 c b v e = rw (v.flag0, v.flag1) e

stdout_of_step :
    (b0 : Bool) (p : Poll) (ps : List Poll)
    → stdout_of b0 (p ∷ ps) ≡ round_text b0 p ++ stdout_of (stdout_stays b0 p) ps
stdout_of_step true p ps = refl
stdout_of_step false poll_interrupted ps = refl
stdout_of_step false poll_failed ps = refl
stdout_of_step false (ready e0 e1) ps = refl

stdout_still_step :
    (b0 : Bool) (p : Poll) (ps : List Poll)
    → stdout_still b0 (p ∷ ps) ≡ stdout_still (stdout_stays b0 p) ps
stdout_still_step true p ps = refl
stdout_still_step false poll_interrupted ps = refl
stdout_still_step false poll_failed ps = refl
stdout_still_step false (ready e0 e1) ps = refl

stderr_still_step :
    (b1 : Bool) (p : Poll) (ps : List Poll)
    → stderr_still b1 (p ∷ ps) ≡ stderr_still (stderr_stays b1 p) ps
stderr_still_step true p ps = refl
stderr_still_step false poll_interrupted ps = refl
stderr_still_step false poll_failed ps = refl
stderr_still_step false (ready e0 e1) ps = refl

unfoldable pub Looped : Bool → Bool → Bytes → List Poll → Option Polled → Type 0
Looped b0 b1 before ps r = (q : Polled) × (r ≡ some q) × Loop b0 b1 before ps q

-- With both descriptors closed the loop is left at once.
Loop-closed :
    (b0 b1 : Bool) (ps : List Poll) (c : Capture)
    → IsValid b0 b1 c
    → (b0 || b1) ≡ false
    → Loop b0 b1 (text c.out) ps (left c)
unfolding Loop
Loop-closed false false ps c v h = (
  false,
  false,
  v,
  ([], sym (append-nil (text c.out))),
  λ ok. (sym (append-nil (text c.out)), refl, refl),
)
Loop-closed true b1 ps c v h = cc
Loop-closed false true ps c v h = cc

-- The end of the loop as the round in front of it sees it.
Loop-round :
    (b0 b1 : Bool) (p : Poll) (ps : List Poll) (before after : Bytes) (q : Polled)
    → after ≡ before ++ round_text b0 p
    → Loop (stdout_stays b0 p) (stderr_stays b1 p) after ps q
    → Loop b0 b1 before (p ∷ ps) q
unfolding Loop
Loop-round b0 b1 p ps before after (polling d) e (still, within) = (
  ap (λ b. b || stderr_still b1 (p ∷ ps)) (stdout_still_step b0 p ps)
      ∙ ap (λ b. stdout_still (stdout_stays b0 p) ps || b) (stderr_still_step b1 p ps)
      ∙ still,
  within,
)
Loop-round b0 b1 p ps before after (left d) e (c0, c1, v, (x, grown), whole) = (
  c0,
  c1,
  v,
  (round_text b0 p ++ x, grown ∙ ap (λ t. t ++ x) e ∙ append_assoc before (round_text b0 p) x),
  λ ok. (
    (whole ok).0
        ∙ ap (λ t. t ++ stdout_of (stdout_stays b0 p) ps) e
        ∙ append_assoc before (round_text b0 p) (stdout_of (stdout_stays b0 p) ps)
        ∙ ap (◌++◌ before) (sym (stdout_of_step b0 p ps)),
    stdout_still_step b0 p ps ∙ (whole ok).1,
    stderr_still_step b1 p ps ∙ (whole ok).2,
  ),
)

Loop-broken :
    (b0 b1 c0 c1 : Bool) (p : Poll) (ps : List Poll) (c d : Capture) (e : GitError)
    → IsValid c0 c1 d
    → text d.out ≡ text c.out ++ round_text b0 p
    → d.ret ≡ failure e
    → Loop b0 b1 (text c.out) (p ∷ ps) (left d)
unfolding Loop
Loop-broken b0 b1 c0 c1 p ps c d e v t bad = (c0, c1, v, (round_text b0 p, t), λ ok. cc)

Loop-waits :
    (b0 b1 : Bool) (c : Capture)
    → (b0 || b1) ≡ true
    → c.error_length < error_size
    → Loop b0 b1 (text c.out) [] (polling c)
unfolding Loop
Loop-waits true b1 c e w = (refl, w)
Loop-waits false true c e w = (refl, w)
Loop-waits false false c e w = cc

pub poll_loop_lem :
    (b0 b1 : Bool) (ps : List Poll) (c : Capture)
    → IsValid b0 b1 c
    → c.ret ≡ success
    → Looped b0 b1 (text c.out) ps (poll_loop c ps)
unfolding Looped poll_loop
poll_loop_lem b0 b1 [] c v ok = elim (Bool-cases (b0 || b1)) [
  | inl e ↦ (polling c, rw (open_flags b0 b1 c true v e), Loop-waits b0 b1 c e v.within)
  | inr e ↦ (left c, rw (open_flags b0 b1 c false v e), Loop-closed b0 b1 [] c v e)
]
poll_loop_lem b0 b1 (p ∷ ps) c v ok = elim (Bool-cases (b0 || b1)) [
  | inl e ↦
      let (d, ran, b, w, t, more) = poll_round_lem b0 b1 p c v in
      elim (Code-cases d.ret) [
        | inl good ↦
            let (q, loops, end) = poll_loop_lem (stdout_stays b0 p) b ps d w good in
            (
              q,
              rw (open_flags b0 b1 c true v e, ran, good) loops,
              Loop-round b0 b1 p ps (text c.out) (text d.out) q t
                  (subst (λ b. Loop (stdout_stays b0 p) b (text d.out) ps q) (more good) end),
            )
        | inr (f, bad) ↦ (
          left d,
          rw (open_flags b0 b1 c true v e, ran, bad),
          Loop-broken b0 b1 (stdout_stays b0 p) b p ps c d f w t bad,
        )
      ]
  | inr e ↦ (left c, rw (open_flags b0 b1 c false v e), Loop-closed b0 b1 (p ∷ ps) c v e)
]
