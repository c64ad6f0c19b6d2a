-- ===== src/Finder/Reply.antt =====
-- src/json_msg_handler.c: `create_res_json` and `send_res_from_file_info`. The buffer is the text
-- that it holds; a text that does not fit with its NUL, or a place behind the text, is a fault,
-- the result `none`. How sprintf prints a number is the parameter `decimal`.
pub mod Whole
use magit.Base.{
  ℕ, suc, ◌+◌, ◌-◌, ◌*◌, ◌&&◌, Option, none, some, List, [], ◌∷◌, ◌++◌, Bytes, length, take, ltb,
  leb, ℤ, pos, negsuc, ◌>>=◌, if◌then◌else◌,
}
use magit.Git.Refs.{codes}

abbrev pub max_response_lines : ℕ
max_response_lines = 100

-- MAX_RESPONSE_LINES * PATH_MAX * 2
abbrev pub max_real_response_size : ℕ
max_real_response_size = 819200

-- The fields of a file_info_t that are printed.
pub record Entry : Type 0 where
  pub file_path : Bytes
  pub match_pos_flag : ℕ

-- sprintf(&buf[at], ...), for an output without a NUL
unfoldable pub sprintf : Bytes → ℕ → Bytes → Option Bytes
sprintf buf at text =
    if leb at (length buf) && ltb (at + length text) max_real_response_size
    then some (take at buf ++ text)
    else none

module _ (decimal : ℕ → Bytes) where
  unfoldable pub decimal_int : ℤ → Bytes
  decimal_int (pos n) = decimal n
  decimal_int (negsuc n) = 45 ∷ decimal (suc n)

  unfoldable pub empty_text : Bytes → ℤ → Bytes
  empty_text cmd seq =
      codes "{\"id\": "
      ++ (decimal_int seq ++ (codes ", \"cmd\": \"" ++ (cmd ++ codes "\", \"result\": []}\n")))

  unfoldable pub head_text : Bytes → ℤ → Bytes
  head_text cmd seq =
      codes "{\"id\": "
      ++ (decimal_int seq ++ (codes ", \"cmd\": \"" ++ (cmd ++ codes "\", \"result\": [")))

  -- An entry, without the comma behind it.
  unfoldable pub entry_text : Entry → Bytes
  entry_text e =
      codes "{\"name\": \""
      ++ (e.file_path ++ (codes "\", \"match_pos\": " ++ (decimal e.match_pos_flag ++ codes "}")))

  -- The loop over the results, with json_size.
  unfoldable pub put_entries : Bytes → ℕ → List Entry → Option (Bytes × ℕ)
  put_entries buf size [] = some (buf, size)
  put_entries buf size (e ∷ es) =
      let text = entry_text e ++ codes "," in
      sprintf buf size text >>= λ b. put_entries b (size + length text) es

  -- The buffer, and the number that is returned.
  unfoldable pub create_res_json : Bytes → List Entry → ℤ → Option (Bytes × ℕ)
  create_res_json cmd [] seq =
      sprintf [] 0 (empty_text cmd seq) >>= λ b. some (b, length (empty_text cmd seq))
  create_res_json cmd (e ∷ es) seq = sprintf [] 0 (head_text cmd seq) >>= λ b.
      put_entries b (length (head_text cmd seq)) (e ∷ es) >>= λ r.
      sprintf r.0 (r.1 - 1) (codes "]}\n") >>= λ b. some (b, 3)

  -- What is written to standard output.
  unfoldable pub send_res_from_file_info : Bytes → List Entry → ℤ → Option Bytes
  send_res_from_file_info cmd results seq =
      create_res_json cmd (take max_response_lines results) seq >>= λ r.
      some (codes "Content-Length: " ++ (decimal r.1 ++ (codes "\r\n\r\n" ++ (r.0 ++ codes "\n"))))
