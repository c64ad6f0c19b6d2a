-- ===== src/Finder/Jobs/Order.antt =====
-- The jobs of src/json_msg_handler.c: one at a time, and never an older request after a newer.
use magit.Base.{
  ℕ, ◌≤◌, ◌≡◌, refl, sym, ap, subst, ◌∙◌, arith, Bool, true, false, none, some, List, [], ◌∷◌, ◌++◌,
  length, leb, leb→le, Bool-cases, Option-cases, ◌⊎◌, inl, inr, ℤ, pos, negsuc, if◌then◌else◌,
}
use Prim.Native.Nat.{suc-le-suc}
use magit.Finder.Jobs.{
  Message, Job, is_grep, Answer, State, file_search, mru_search, yank_search, grep, job_of, begin,
  queue_job, queue_grep, Command, file, init_mru, write_mru, mru, run_grep, init_yank, yank,
  unknown, command_of, dispatch, accepted, wait, handle_json_msg, job_ends, receives, fires, ends,
  Reaches, starts, goes_on,
}

-- The numbers of these jobs, the last first, do not rise, and none is above the bound.
abbrev pub Descends : ℕ → List Job → Type 0
Descends bound [] = Unit
Descends bound (j ∷ js) = (n : ℕ) × (j.seq ≡ pos n) × (n ≤ bound) × Descends n js

Descends-le : (n m : ℕ) (js : List Job) → n ≤ m → Descends n js → Descends m js
Descends-le n m [] h d = tt
Descends-le n m (j ∷ js) h (k, e, le, d) = (k, e, omega arith, d)

-- Work is only done while `job` is set, one piece at a time; g_child_req is set only while a grep
-- runs; and work was started in the order of the messages' numbers.
pub record IsOrdered (st : State) : Type 0 where
  pub single : length st.running ≤ 1
  pub idle : st.job ≡ false → st.running ≡ []
  pub owner : (st.child ≡ false) ⊎ ((j : Job) × (st.running ≡ j ∷ []) × (is_grep j.kind ≡ true))
  pub order : Descends st.current_seq st.started

-- With no job, no child is left.
free_child : (st : State) → IsOrdered st → st.job ≡ false → st.child ≡ false
free_child st v free = elim v.owner [
  | inl e ↦ e
  | inr (j, e, g) ↦ let none_runs = v.idle free in cc
]

begin-IsOrdered :
    (j : Job) (st : State) (child : Bool)
    → j.seq ≡ pos st.current_seq
    → st.job ≡ false
    → (child ≡ false) ⊎ (is_grep j.kind ≡ true)
    → IsOrdered st
    → IsOrdered (begin j (record st { job = true; child = child }))
begin-IsOrdered j st child e free owned v =
    let alone : st.running ++ j ∷ [] ≡ j ∷ [] = ap (λ r. r ++ j ∷ []) (v.idle free) in
    record {
      single = subst (λ r. length r ≤ 1) (sym alone) (omega arith);
      idle = λ h. cc;
      owner = elim owned [ inl h ↦ inl h | inr h ↦ inr (j, alone, h) ];
      order = (st.current_seq, e, omega arith, v.order);
    }

Ordered-if : (b : Bool) {x y : State} → IsOrdered x → IsOrdered y → IsOrdered (if b then x else y)
Ordered-if true h k = h
Ordered-if false h k = k

queue_job-IsOrdered :
    (a : Answer) (j : Job) (st : State)
    → j.seq ≡ pos st.current_seq
    → st.job ≡ false
    → IsOrdered st
    → IsOrdered (queue_job a j st)
unfolding queue_job
queue_job-IsOrdered a j st e free v =
    Ordered-if a.queued (begin-IsOrdered j st st.child e free (inl (free_child st v free)) v)
      (record { single = v.single; idle = λ _. v.idle free; owner = v.owner; order = v.order })

queue_grep-IsOrdered :
    (a : Answer) (j : Job) (st : State)
    → j.seq ≡ pos st.current_seq
    → is_grep j.kind ≡ true
    → st.job ≡ false
    → IsOrdered st
    → IsOrdered (queue_grep a j st)
unfolding queue_grep
queue_grep-IsOrdered a j st e g free v =
    Ordered-if a.spawned (begin-IsOrdered j st a.reading e free (inr g) v)
      (record { single = v.single; idle = λ _. v.idle free; owner = inl refl; order = v.order })

dispatch-IsOrdered :
    (a : Answer) (m : Message) (c : Command) (st : State)
    → m.seq ≡ pos st.current_seq
    → st.job ≡ false
    → IsOrdered st
    → IsOrdered (dispatch a m c st)
unfolding dispatch
dispatch-IsOrdered a m file st e free v =
    queue_job-IsOrdered a (job_of file_search m.value m.list_cmd m) st e free v
dispatch-IsOrdered a m init_mru st e free v =
    queue_job-IsOrdered a (job_of mru_search [] m.mru_path m) st e free v
dispatch-IsOrdered a m write_mru st e free v = record {
  single = v.single;
  idle = v.idle;
  owner = v.owner;
  order = v.order;
}
dispatch-IsOrdered a m mru st e free v =
    queue_job-IsOrdered a (job_of mru_search m.value m.mru_path m) st e free v
dispatch-IsOrdered a m run_grep st e free v =
    queue_grep-IsOrdered a (job_of grep [] m.list_cmd m) st e refl free v
dispatch-IsOrdered a m init_yank st e free v =
    queue_job-IsOrdered a (job_of yank_search [] m.yank_path m) st e free v
dispatch-IsOrdered a m yank st e free v =
    queue_job-IsOrdered a (job_of yank_search m.value m.yank_path m) st e free v
dispatch-IsOrdered a m unknown st e free v = v

accepted_lem :
    (seq : ℤ) (current n : ℕ) → accepted seq current ≡ some n → (seq ≡ pos n) × (current ≤ n)
unfolding accepted
accepted_lem (negsuc k) current n e = cc
accepted_lem (pos k) current n e = elim (Bool-cases (leb current k)) [
  | inl h ↦
      let same : some k ≡ some n = rw h at e in
      let it : k ≡ n = cc in (ap pos it, omega (arith, leb→le current k h))
  | inr h ↦ let no : none ≡ some n = rw h at e in cc
]

-- A new number keeps the order.
raise-IsOrdered :
    (n : ℕ) (st : State)
    → st.current_seq ≤ n
    → IsOrdered st
    → IsOrdered (record st { current_seq = n })
raise-IsOrdered n st h v = record {
  single = v.single;
  idle = v.idle;
  owner = v.owner;
  order = Descends-le st.current_seq n st.started h v.order;
}

busy_or_free :
    (a : Answer) (m : Message) (st : State)
    → m.seq ≡ pos st.current_seq
    → IsOrdered st
    → IsOrdered (if st.job then wait m st else dispatch a m (command_of m.cmd) st)
unfolding wait
busy_or_free a m st same v = elim (Bool-cases st.job) [
  | inl busy ↦
      subst (λ b. IsOrdered (if b then wait m st else dispatch a m (command_of m.cmd) st))
        (sym busy) (record { single = v.single; idle = v.idle; owner = v.owner; order = v.order })
  | inr free ↦
      subst (λ b. IsOrdered (if b then wait m st else dispatch a m (command_of m.cmd) st))
        (sym free) (dispatch-IsOrdered a m (command_of m.cmd) st same free v)
]

handle_json_msg-IsOrdered :
    (a : Answer) (m : Message) (st : State) → IsOrdered st → IsOrdered (handle_json_msg a m st)
unfolding handle_json_msg
handle_json_msg-IsOrdered a m st v =
    let now : ℕ → State = λ n. record st { current_seq = n } in
    elim (Option-cases (accepted m.seq st.current_seq)) [
      | inl e ↦
          subst
            (λ r. IsOrdered (elim r as (λ _. State) [
              | none ↦ st
              | some n ↦ if st.job then wait m (now n) else dispatch a m (command_of m.cmd) (now n)
            ]))
            (sym e) v
      | inr (n, e) ↦
          let (same, up) = accepted_lem m.seq st.current_seq n e in
          let raised = raise-IsOrdered n st up v in
          subst
            (λ r. IsOrdered (elim r as (λ _. State) [
              | none ↦ st
              | some n ↦ if st.job then wait m (now n) else dispatch a m (command_of m.cmd) (now n)
            ]))
            (sym e) (busy_or_free a m (now n) same raised)
    ]

only_one :
    (before after : List Job) (j : Job) → length (before ++ j ∷ after) ≤ 1 → before ++ after ≡ []
only_one [] [] j h = refl
only_one [] (c ∷ after) j (suc-le-suc h) = elim h [ ]
only_one (b ∷ []) after j (suc-le-suc h) = elim h [ ]
only_one (b ∷ c ∷ before) after j (suc-le-suc h) = elim h [ ]

same_one : (before after : List Job) (j x : Job) → before ++ j ∷ after ≡ x ∷ [] → j ≡ x
same_one [] after j x e = cc
same_one (b ∷ []) after j x e = cc
same_one (b ∷ c ∷ before) after j x e = cc

child_ends : (b c : Bool) → (c ≡ false) ⊎ (b ≡ true) → (if b then false else c) ≡ false
child_ends true c h = refl
child_ends false c (inl e) = e
child_ends false c (inr e) = cc

job_ends-IsOrdered :
    (before after : List Job) (j : Job) (st : State)
    → st.running ≡ before ++ j ∷ after
    → IsOrdered st
    → IsOrdered (job_ends j (before ++ after) st)
unfolding job_ends
job_ends-IsOrdered before after j st e v =
    let none_left = only_one before after j (subst (λ r. length r ≤ 1) e v.single) in
    record {
      single = subst (λ r. length r ≤ 1) (sym none_left) (omega arith);
      idle = λ _. none_left;
      owner = inl (
          child_ends (is_grep j.kind) st.child (elim v.owner [
            | inl h ↦ inl h
            | inr (x, r, g) ↦
                inr (ap (λ k. is_grep k.kind) (same_one before after j x (sym e ∙ r)) ∙ g)
          ]));
      order = v.order;
    }

-- Whatever messages come, timers fire and work ends, in any order and with any answers of libuv:
-- work runs only while `job` is set, at most one piece at a time; g_child_req is set only while
-- a grep runs; and the work that
-- was started has numbers that never fall, none above current_seq.
pub Reaches-IsOrdered : {st : State} → Reaches st → IsOrdered st
Reaches-IsOrdered starts = record {
  single = omega arith;
  idle = λ _. refl;
  owner = inl refl;
  order = tt;
}
Reaches-IsOrdered (goes_on r (receives {st = st} a m)) =
    handle_json_msg-IsOrdered a m st (Reaches-IsOrdered r)
Reaches-IsOrdered (goes_on r (fires {st = st} a before after m e free)) =
    let v = Reaches-IsOrdered r in
    handle_json_msg-IsOrdered a m (record st { cancel = false; timers = before ++ after })
      (record { single = v.single; idle = v.idle; owner = v.owner; order = v.order })
Reaches-IsOrdered (goes_on r (ends {st = st} before after j e)) =
    job_ends-IsOrdered before after j st e (Reaches-IsOrdered r)
