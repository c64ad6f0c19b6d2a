-- ===== src/Finder/Parse.antt =====
-- src/json_msg_handler.c: `json_eq` and the parsing of `handle_json_msg`. What jsmn_parse makes of a
-- text is a parameter. An array is the cells up to the last that was written, with zeros behind
-- them; a write or a string that passes its end is a fault, the result `none`.
pub mod Members
pub mod Dispatch
use magit.Base.{
  ℕ, ◌-◌, ◌<◌, ◌≤◌, Bool, true, false, ◌&&◌, Option, none, some, List, [], ◌∷◌, ◌++◌, Bytes, length,
  take, drop, replicate, leb, ltb, ◌==◌, ℤ, pos, negsuc, ◌>>=◌, if◌then◌else◌,
}
use magit.Git.Refs.{codes}
use magit.Finder.Jobs.{Message, Answer, State, same_text, handle_json_msg}
use magit.Finder.Mru.{path_max}
use magit.Finder.Text.{c_string, atoi}

pub data TokenKind : Type 0 where
  undefined object array string primitive : TokenKind

-- jsmntok_t
pub record Token : Type 0 where
  pub kind : TokenKind
  pub start : ℤ
  pub end : ℤ

-- The bytes between two places. For places in the wrong order strncpy would be given a number that
-- passes every array.
unfoldable pub span : Bytes → ℤ → ℤ → Option Bytes
span json (pos s) (pos e) = if leb s e then some (take (e - s) (drop s json)) else none
span json (negsuc s) e = none
span json (pos s) (negsuc e) = none

abbrev pub slice : Bytes → Token → Option Bytes
slice json t = span json t.start t.end

abbrev pub is_string : TokenKind → Bool
is_string string = true
is_string undefined = false
is_string object = false
is_string array = false
is_string primitive = false

abbrev pub is_primitive : TokenKind → Bool
is_primitive primitive = true
is_primitive undefined = false
is_primitive object = false
is_primitive array = false
is_primitive string = false

-- json_eq(json, tok, s) == 0
unfoldable pub json_eq : Bytes → Token → Bytes → Bool
json_eq json t s =
    is_string t.kind && (elim (slice json t) [ none ↦ false | some u ↦ same_text u s ])

pub data Key : Type 0 where
  cmd value mru_path yank_path list_cmd : Key

abbrev pub key_name : Key → Bytes
key_name cmd = codes "cmd"
key_name value = codes "value"
key_name mru_path = codes "mru_path"
key_name yank_path = codes "yank_path"
key_name list_cmd = codes "list_cmd"

unfoldable pub key_of : Bytes → Token → Option Key
key_of json t =
    if json_eq json t (key_name cmd)
    then some cmd
    else if json_eq json t (key_name value)
    then some value
    else if json_eq json t (key_name mru_path)
    then some mru_path
    else if json_eq json t (key_name yank_path)
    then some yank_path
    else if json_eq json t (key_name list_cmd)
    then some list_cmd
    else none

-- The arrays and `seq`.
pub record Elements : Type 0 where
  pub cell : Key → Bytes
  pub seq : ℤ

abbrev pub cleared : Elements
cleared = record { cell = λ k. []; seq = pos 0 }

abbrev pub same_key : Key → Key → Bool
same_key j k = same_text (key_name j) (key_name k)

-- strncpy to an array of PATH_MAX bytes: what it held behind the copied bytes stays. A text that
-- fills the array leaves no NUL, and is a fault too.
unfoldable pub put_element : Key → Bytes → Elements → Option Elements
put_element k text e =
    if ltb (length text) path_max
    then some (record e {
      cell = λ j. if same_key j k then text ++ drop (length text) (e.cell j) else e.cell j;
    })
    else none

-- int_str has 100 bytes.
unfoldable pub put_number : Bytes → Elements → Option Elements
put_number text e = if ltb (length text) 100 then some (record e { seq = atoi text }) else none

unfoldable pub other_token : Bytes → Token → Elements → Option Elements
other_token json t e =
    if is_primitive t.kind then (slice json t >>= λ text. put_number text e) else some e

-- The loop over the tokens; a key at the end would be followed by one behind the array.
unfoldable pub scan_tokens : Bytes → List Token → Elements → Option Elements
scan_tokens json [] e = some e
scan_tokens json (t ∷ []) e = elim (key_of json t) [ some k ↦ none | none ↦ other_token json t e ]
scan_tokens json (t ∷ (v ∷ ts)) e = elim (key_of json t) [
  | some k ↦ slice json v >>= λ text. put_element k text e >>= λ next. scan_tokens json ts next
  | none ↦ other_token json t e >>= λ next. scan_tokens json (v ∷ ts) next
]

-- The arrays as strings.
unfoldable pub message_of : Elements → Message
message_of e = record {
  cmd = c_string (e.cell cmd);
  value = c_string (e.cell value);
  mru_path = c_string (e.cell mru_path);
  yank_path = c_string (e.cell yank_path);
  list_cmd = c_string (e.cell list_cmd);
  seq = e.seq;
}

abbrev pub is_zero : ℤ → Bool
is_zero (pos n) = n == 0
is_zero (negsuc n) = false

module _ (jsmn_parse : Bytes → ℤ × List Token) where
  -- handle_json_msg from its start.
  unfoldable pub handle_json_str : Answer → Bytes → State → Option State
  handle_json_str a json st =
      let (ret, toks) = jsmn_parse json in
      if is_zero ret
      then some st
      else (scan_tokens json toks cleared >>= λ e. some (handle_json_msg a (message_of e) st))
