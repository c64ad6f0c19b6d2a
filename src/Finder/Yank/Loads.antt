-- ===== src/Finder/Yank/Loads.antt =====
-- The yanks that are loaded from a directory, and how they are answered.
use magit.Base.{
  ℕ, suc, ◌-◌, Bool, true, false, ==_ne, ◌≤◌, ◌≡◌, refl, sym, ap, ◌∙◌, inl, inr, arith, Option,
  none, some, List, [], ◌∷◌, ◌++◌, append_assoc, append-nil, map, Bytes, All, length, length-append,
  take, drop, ltb, lt→ltb, ◌==◌, ℤ, ◌>>=◌, some_bind, if_bind, Option-cases, if◌then◌else◌,
}
use magit.Git.Refs.{codes}
use magit.Finder.Growth.{grown, grown_room}
use magit.Finder.Reply.{max_response_lines, max_real_response_size}
use magit.Finder.Reply.Whole.{body, reply, send_res_from_file_info-writes}
use magit.Finder.Yank.{
  YankFile, Dirent, Yank, yank_score_cmp, yank_of, put_yank, sort_yanks, YankCache, entry_of_yank,
  opened, load_entries, send_yanks, entries_of, init_yank,
}
use magit.Finder.Yank.Texts.{HasLine, IsYank, yank_of_lem}

module _ (fopen : Bytes → Option YankFile) (yank_dir : Bytes) where
  -- If it is opened, getline reads a line of it.
  abbrev pub Readable : Dirent → Type 0
  Readable d =
      (f : YankFile) → opened fopen yank_dir d ≡ some f → (line : Bytes) × HasLine f.cells line

  -- An entry for each file that is opened, in the order of the directory.
  pub data Loaded : List Dirent → List Yank → Type 0 where
    at_end : Loaded [] []
    passed :
        (d : Dirent) (dir : List Dirent) (ys : List Yank)
        → opened fopen yank_dir d ≡ none
        → Loaded dir ys
        → Loaded (d ∷ dir) ys
    listed :
        (d : Dirent) (dir : List Dirent) (y : Yank) (ys : List Yank) (f : YankFile) (line : Bytes)
        → opened fopen yank_dir d ≡ some f
        → HasLine f.cells line
        → IsYank d f line y
        → Loaded dir ys
        → Loaded (d ∷ dir) (y ∷ ys)

  put_yank_lem :
      (ys : List Yank) (size : ℕ) (y : Yank)
      → 1 ≤ size
      → length ys ≤ size
      → put_yank ys (grown size (length ys)) y ≡ some (ys ++ y ∷ [])
  unfolding put_yank
  put_yank_lem ys size y room filled =
      rw (lt→ltb (length ys) (grown size (length ys)) (grown_room size (length ys) room filled).0)

  load_passed :
      (d : Dirent) (dir : List Dirent) (size : ℕ) (ys : List Yank)
      → opened fopen yank_dir d ≡ none
      → load_entries fopen yank_dir size ys (d ∷ dir)
        ≡ load_entries fopen yank_dir (grown size (length ys)) ys dir
  unfolding load_entries
  load_passed d dir size ys e = rw (load_entries, e) refl

  load_listed :
      (d : Dirent) (dir : List Dirent) (size : ℕ) (ys : List Yank) (f : YankFile) (y : Yank)
      → opened fopen yank_dir d ≡ some f
      → yank_of d f ≡ some y
      → 1 ≤ size
      → length ys ≤ size
      → load_entries fopen yank_dir size ys (d ∷ dir)
        ≡ load_entries fopen yank_dir (grown size (length ys)) (ys ++ y ∷ []) dir
  unfolding load_entries
  load_listed d dir size ys f y e made room filled =
      rw (load_entries, e) (some_bind _ made ∙ some_bind _ (put_yank_lem ys size y room filled))

  pub load_entries-Loaded :
      (dir : List Dirent) (size : ℕ) (ys : List Yank)
      → All Readable dir
      → 1 ≤ size
      → length ys ≤ size
      → (larger : ℕ) × (more : List Yank) × Loaded dir more
        × (length (ys ++ more) ≤ larger)
        × (load_entries fopen yank_dir size ys dir ≡ some (larger, ys ++ more))
  unfolding load_entries
  load_entries-Loaded [] size ys h room filled = (
    size,
    [],
    Loaded.at_end,
    omega (arith, length-append ys []),
    ap (λ l. some (size, l)) (sym (append-nil ys)),
  )
  load_entries-Loaded (d ∷ dir) size ys (h, hs) room filled =
      let next = grown size (length ys) in
      let (below, room') = grown_room size (length ys) room filled in
      elim (Option-cases (opened fopen yank_dir d)) [
        | inl e ↦
            let (larger, more, are, few, ran) =
              load_entries-Loaded dir next ys hs room' (omega arith) in
            (larger, more, Loaded.passed d dir more e are, few, load_passed d dir size ys e ∙ ran)
        | inr (f, e) ↦
            let (line, has) = h f e in
            let (y, made, is) = yank_of_lem d f line has in
            let (larger, more, are, few, ran) =
              load_entries-Loaded dir next (ys ++ y ∷ []) hs room'
                (omega (arith, length-append ys (y ∷ []))) in
            let same = append_assoc ys (y ∷ []) more in
            (
              larger,
              y ∷ more,
              Loaded.listed d dir y more f line e has is are,
              omega (arith, ap length same),
              load_listed d dir size ys f y e made room filled
                  ∙ ran
                  ∙ ap (λ l. some (larger, l)) same,
            )
      ]

-- What qsort makes of all yanks but the last, and the last behind them.
abbrev pub partly_sorted : ((Yank → Yank → ℤ) → List Yank → List Yank) → List Yank → List Yank
partly_sorted qsort ys = let n = length ys - 1 in qsort yank_score_cmp (take n ys) ++ drop n ys

sort_yanks_lem :
    (qsort : (Yank → Yank → ℤ) → List Yank → List Yank) (ys : List Yank)
    → sort_yanks qsort ys ≡ (if length ys == 0 then none else some (partly_sorted qsort ys))
unfolding sort_yanks
sort_yanks_lem qsort [] = refl
sort_yanks_lem qsort (y ∷ ys) = rw (==_ne (suc (length ys)) 0 (λ z. ground arith)) refl

else_bind {ℓ κ} :
    {A : Type ℓ} {B : Type κ} (b : Bool) (a : A) (f : A → Option B)
    → ((if b then none else some a) >>= f) ≡ (if b then none else f a)
else_bind true a f = refl
else_bind false a f = refl

send_yanks_lem :
    (decimal : ℕ → Bytes) (seq : ℤ) (size len : ℕ) (ys : List Yank)
    → send_yanks decimal seq size len ys ≡ (
        let sent = take max_response_lines (map entry_of_yank ys) in
        if ltb (length (body decimal (codes "yank") sent seq)) max_real_response_size
        then some (
          record { yanks = ys; len = len; current_size = size },
          reply decimal (codes "yank") sent seq,
        )
        else none)
unfolding send_yanks
send_yanks_lem decimal seq size len ys =
    let entries = map entry_of_yank ys in
    let sent = take max_response_lines entries in
    let cached : YankCache = record { yanks = ys; len = len; current_size = size } in
    ap (λ r. r >>= λ t. some (cached, t))
      (send_res_from_file_info-writes decimal (codes "yank") entries seq)
    ∙ if_bind (ltb (length (body decimal (codes "yank") sent seq)) max_real_response_size)
        (reply decimal (codes "yank") sent seq) (λ t. some (cached, t))

-- If getline reads a first line of each regular file that is opened, with a byte among its first
-- 150 that need not be escaped, and the array starts with room for an entry, init_yank loads an
-- entry for each of these files: the name of the file, a bar and an escaped text, all cut to 8191
-- bytes. The text reads back as the first 150 bytes of the line, a newline at its end included,
-- without those from 192 on. Without such a file qsort is called for more entries than there
-- are, a fault. Otherwise qsort is given all entries but the last; the cache holds what it makes
-- of them and the last, in an array with room for them, and a reply lists the first 100. It
-- faults too where the reply does not fit its buffer.
pub init_yank-loads :
    (decimal : ℕ → Bytes) (qsort : (Yank → Yank → ℤ) → List Yank → List Yank)
    (opendir : Bytes → Option (List Dirent)) (fopen : Bytes → Option YankFile) (yank_path : Bytes)
    (seq : ℤ) (cache : YankCache)
    → All (Readable fopen yank_path) (entries_of (opendir yank_path))
    → 1 ≤ cache.current_size
    → (yanks : List Yank) × (size : ℕ) × Loaded fopen yank_path
        (entries_of (opendir yank_path))
        yanks
      × (length yanks ≤ size)
      × (init_yank decimal qsort opendir fopen yank_path seq cache ≡ (
          let all = partly_sorted qsort yanks in
          let sent = take max_response_lines (map entry_of_yank all) in
          if length yanks == 0
          then none
          else if ltb (length (body decimal (codes "yank") sent seq)) max_real_response_size
          then some (
            record { yanks = all; len = length yanks; current_size = size },
            reply decimal (codes "yank") sent seq,
          )
          else none))
unfolding init_yank
init_yank-loads decimal qsort opendir fopen yank_path seq cache h room =
    let dir = entries_of (opendir yank_path) in
    let (size, ys, are, few, ran) =
      load_entries-Loaded fopen yank_path dir cache.current_size [] h room (omega arith) in
    let all = partly_sorted qsort ys in
    let send = send_yanks decimal seq size (length ys) in
    (
      ys,
      size,
      are,
      few,
      some_bind _ ran
          ∙ ap (λ r. r >>= send) (sort_yanks_lem qsort ys)
          ∙ else_bind (length ys == 0) all send
          ∙ ap (λ o. if length ys == 0 then none else o)
              (send_yanks_lem decimal seq size (length ys) all),
    )
