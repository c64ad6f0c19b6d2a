-- ===== src/Finder/Reply/Whole.antt =====
-- What `send_res_from_file_info` of src/json_msg_handler.c writes.
use magit.Base.{
  ℕ, ◌-◌, ◌≤◌, ◌<◌, ◌≡◌, sym, ap, ◌∙◌, inl, inr, arith, Option, none, some, List, [], ◌∷◌, ◌++◌,
  append_assoc, append-nil, Bytes, length, length-append, take, take-append, ltb, lt→ltb, le→ltb,
  le→leb, ℤ, Bool-cases, ltb→lt, ltb→le, ◌>>=◌, some_bind, none_bind, if◌then◌else◌,
}
use magit.Git.Refs.{codes}
use magit.Finder.Reply.{
  max_response_lines, max_real_response_size, Entry, sprintf, empty_text, head_text, entry_text,
  put_entries, create_res_json, send_res_from_file_info,
}

module _ (decimal : ℕ → Bytes) where
  -- The entries with commas between them.
  unfoldable pub joined : List Entry → Bytes
  joined [] = []
  joined (e ∷ []) = entry_text decimal e
  joined (e ∷ (d ∷ es)) = entry_text decimal e ++ (codes "," ++ joined (d ∷ es))

  -- The object that answers a request.
  abbrev pub body : Bytes → List Entry → ℤ → Bytes
  body cmd results seq = head_text decimal cmd seq ++ (joined results ++ codes "]}\n")

  abbrev pub announced : Bytes → List Entry → ℤ → ℕ
  announced cmd [] seq = length (body cmd [] seq)
  announced cmd (e ∷ es) seq = 3

  -- A text where it fits the buffer.
  abbrev fit {ℓ} : {A : Type ℓ} → Bytes → A → Option A
  fit t a = if ltb (length t) max_real_response_size then some a else none

  fit-some {ℓ} :
      {A : Type ℓ} (t : Bytes) (a : A) → length t < max_real_response_size → fit t a ≡ some a
  fit-some t a h = rw (lt→ltb (length t) max_real_response_size h)

  fit-none {ℓ} :
      {A : Type ℓ} (t : Bytes) (a : A) → max_real_response_size ≤ length t → fit t a ≡ none
  fit-none t a h = rw (le→ltb (length t) max_real_response_size h)

  -- A shorter text is printed first.
  fit_then {ℓ κ} :
      {A : Type ℓ} {B : Type κ} (s t : Bytes) (a : A) (b : B) (f : A → Option B)
      → length s ≤ length t
      → (length s < max_real_response_size → f a ≡ fit t b)
      → (fit s a >>= f) ≡ fit t b
  fit_then s t a b f h k = elim (Bool-cases (ltb (length s) max_real_response_size)) [
    | inl room ↦
        let fits = ltb→lt (length s) max_real_response_size room in
        some_bind f (fit-some s a fits) ∙ k fits
    | inr full ↦
        let over = ltb→le (length s) max_real_response_size full in
        none_bind f (fit-none s a over) ∙ sym (fit-none t b (omega arith))
  ]

  sprintf-end :
      (front back text : Bytes)
      → sprintf (front ++ back) (length front) text ≡ fit (front ++ text) (front ++ text)
  unfolding sprintf
  sprintf-end front back text =
      rw (le→leb (length front) (length (front ++ back)) (omega (arith, length-append front back)))
        (rw (← length-append front text) (rw (take-append front back)))

  sprintf_next :
      (buf text : Bytes) → sprintf buf (length buf) text ≡ fit (buf ++ text) (buf ++ text)
  sprintf_next buf text =
      ap (λ b. sprintf b (length buf) text) (sym (append-nil buf)) ∙ sprintf-end buf [] text

  commas : List Entry → Bytes
  commas [] = []
  commas (e ∷ es) = (entry_text decimal e ++ codes ",") ++ commas es

  commas-joined : (e : Entry) (es : List Entry) → commas (e ∷ es) ≡ joined (e ∷ es) ++ codes ","
  unfolding commas joined
  commas-joined e [] = append-nil (entry_text decimal e ++ codes ",")
  commas-joined e (d ∷ es) =
      ap (λ c. (entry_text decimal e ++ codes ",") ++ c) (commas-joined d es)
      ∙ append_assoc (entry_text decimal e) (codes ",") (joined (d ∷ es) ++ codes ",")
      ∙ sym (append_assoc (entry_text decimal e) (codes "," ++ joined (d ∷ es)) (codes ","))

  put_entries_lem :
      (buf : Bytes) (es : List Entry)
      → length buf < max_real_response_size
      → put_entries decimal buf (length buf) es
        ≡ fit (buf ++ commas es) (buf ++ commas es, length (buf ++ commas es))
  unfolding put_entries commas
  put_entries_lem buf [] h = sym (
      fit-some (buf ++ []) _ (omega (arith, length-append buf []))
      ∙ ap (λ b. some (b, length b)) (append-nil buf))
  put_entries_lem buf (e ∷ es) h =
      let text = entry_text decimal e ++ codes "," in
      elim (Bool-cases (ltb (length (buf ++ text)) max_real_response_size)) [
        | inl room ↦
            let fits = ltb→lt (length (buf ++ text)) max_real_response_size room in
            some_bind _ (sprintf_next buf text ∙ fit-some (buf ++ text) _ fits)
            ∙ ap (λ n. put_entries decimal (buf ++ text) n es) (sym (length-append buf text))
            ∙ put_entries_lem (buf ++ text) es fits
            ∙ ap (λ b. fit b (b, length b)) (append_assoc buf text (commas es))
        | inr full ↦
            let over = ltb→le (length (buf ++ text)) max_real_response_size full in
            none_bind _ (sprintf_next buf text ∙ fit-none (buf ++ text) _ over)
            ∙ sym (
                fit-none (buf ++ (text ++ commas es)) _ (
                  omega (
                    arith,
                    length-append buf text,
                    length-append buf (text ++ commas es),
                    length-append text (commas es),
                  )))
      ]

  -- The print of the end, over the last comma.
  last_print : Bytes × ℕ → Option (Bytes × ℕ)
  last_print r = sprintf r.0 (r.1 - 1) (codes "]}\n") >>= λ b. some (b, 3)

  last_print_lem :
      (head : Bytes) (e : Entry) (es : List Entry)
      → last_print (head ++ commas (e ∷ es), length (head ++ commas (e ∷ es)))
        ≡ fit
            (head ++ (joined (e ∷ es) ++ codes "]}\n"))
            (head ++ (joined (e ∷ es) ++ codes "]}\n"), 3)
  unfolding last_print
  last_print_lem head e es =
      let items = joined (e ∷ es) in
      let front = head ++ items in
      let printed : head ++ commas (e ∷ es) ≡ front ++ codes "," =
        ap (λ c. head ++ c) (commas-joined e es) ∙ sym (append_assoc head items (codes ",")) in
      rw printed (
        let place : length (front ++ codes ",") - 1 ≡ length front =
          omega (arith, length-append front (codes ",")) in
        rw place (
          ap (λ r. r >>= λ b. some (b, 3)) (sprintf-end front (codes ",") (codes "]}\n"))
          ∙ fit_then (front ++ codes "]}\n") (front ++ codes "]}\n") _ _ (λ b. some (b, 3))
              (omega arith) (λ fits. sym (fit-some (front ++ codes "]}\n") _ fits))
          ∙ ap (λ t. fit t (t, 3)) (append_assoc head items (codes "]}\n"))))

  empty_text-body : (cmd : Bytes) (seq : ℤ) → empty_text decimal cmd seq ≡ body cmd [] seq
  unfolding empty_text head_text joined
  empty_text-body cmd seq = simp append_assoc

  printed_size :
      (head : Bytes) (e : Entry) (es : List Entry)
      → length (head ++ commas (e ∷ es)) ≤ length (head ++ (joined (e ∷ es) ++ codes "]}\n"))
  printed_size head e es =
      let items = joined (e ∷ es) in
      omega (
        arith,
        length-append head (commas (e ∷ es)),
        ap length (commas-joined e es),
        length-append items (codes ","),
        length-append head (items ++ codes "]}\n"),
        length-append items (codes "]}\n"),
      )

  -- Where the whole object fits, so does all that is printed on the way to it.
  create_res_json_lem :
      (cmd : Bytes) (results : List Entry) (seq : ℤ)
      → create_res_json decimal cmd results seq
        ≡ fit (body cmd results seq) (body cmd results seq, announced cmd results seq)
  unfolding create_res_json last_print
  create_res_json_lem cmd [] seq =
      let t = empty_text decimal cmd seq in
      ap (λ r. r >>= λ b. some (b, length t)) (sprintf-end [] [] t)
      ∙ fit_then t t t (t, length t) (λ b. some (b, length t)) (omega arith)
          (λ fits. sym (fit-some t _ fits))
      ∙ ap (λ t. fit t (t, length t)) (empty_text-body cmd seq)
  create_res_json_lem cmd (e ∷ es) seq =
      let head = head_text decimal cmd seq in
      let items = joined (e ∷ es) in
      let whole = head ++ (items ++ codes "]}\n") in
      let printed = head ++ commas (e ∷ es) in
      ap (λ r. r >>= λ b. put_entries decimal b (length head) (e ∷ es) >>= last_print)
        (sprintf-end [] [] head)
      ∙ fit_then head whole head (whole, 3) _
          (omega (arith, length-append head (items ++ codes "]}\n")))
          (λ fits.
            ap (λ r. r >>= last_print) (put_entries_lem head (e ∷ es) fits)
            ∙ fit_then printed whole _ (whole, 3) last_print (printed_size head e es)
                (λ _. last_print_lem head e es))

  -- The object behind the line that announces it.
  abbrev pub reply : Bytes → List Entry → ℤ → Bytes
  reply cmd sent seq =
      codes "Content-Length: "
      ++ (decimal (announced cmd sent seq)
          ++ (codes "\r\n\r\n" ++ (body cmd sent seq ++ codes "\n")))

  abbrev put_reply : Bytes × ℕ → Option Bytes
  put_reply r =
      some (codes "Content-Length: " ++ (decimal r.1 ++ (codes "\r\n\r\n" ++ (r.0 ++ codes "\n"))))

  -- send_res_from_file_info writes one object with the request's number, the command and the first
  -- 100 results, with commas between them, behind a line that announces its length if there is
  -- no result and the length 3 of what was printed last if there is one. It faults exactly if
  -- the object and its NUL need more than 819200 bytes.
  pub send_res_from_file_info-writes :
      (cmd : Bytes) (results : List Entry) (seq : ℤ)
      → send_res_from_file_info decimal cmd results seq ≡ (
          let sent = take max_response_lines results in
          if ltb (length (body cmd sent seq)) max_real_response_size
          then some (reply cmd sent seq)
          else none)
  unfolding send_res_from_file_info
  send_res_from_file_info-writes cmd results seq =
      let sent = take max_response_lines results in
      let text = body cmd sent seq in
      ap (λ r. r >>= put_reply) (create_res_json_lem cmd sent seq)
      ∙ fit_then text text (text, announced cmd sent seq) _ put_reply (omega arith)
          (λ fits. sym (fit-some text _ fits))
