-- ===== src/Finder/Mru.antt =====
-- src/mru.c: `load_mru_to_file_info`. The two buffers are what was put into them since they were
-- cleared, and a write past the end of an array is a fault, the result `none`; `atoi` is given.
-- The file is the list of what successive calls of fgetc give, converted to char.
pub mod Overrun
use magit.Base.{
  ℕ, zero, suc, ◌+◌, ◌*◌, Bool, true, false, Option, none, some, List, [], ◌∷◌, ◌++◌, Bytes, length,
  ltb, leb, ◌==◌, ℤ, ◌>>=◌, if◌then◌else◌,
}

abbrev pub path_max : ℕ
path_max = 4096

abbrev pub initial_cache_size : ℕ
initial_cache_size = 100

-- The fields that are loaded; the path is `none` where no colon came before the end of the line.
pub record FileInfo : Type 0 where
  pub file_path : Option Bytes
  pub mru_score : ℤ

-- The locals, the entries whose lines have ended, and the path of the entry that is being read.
pub record Load : Type 0 where
  pub current_size : ℕ
  pub in_value : Bool
  pub key_buf : Bytes
  pub val_buf : Bytes
  pub lines : List FileInfo
  pub file_path : Option Bytes

abbrev pub begun : ℕ → Load
begun size = record {
  current_size = size;
  in_value = false;
  key_buf = [];
  val_buf = [];
  lines = [];
  file_path = none;
}

-- Whether the loop goes on or was left.
pub data Flow : Type 0 where
  goes_on leaves : Load → Flow

-- key_buf[key_counter] = c, and the same for val_buf
unfoldable pub put_char : Bytes → ℕ → Option Bytes
put_char buf c = if ltb (length buf) path_max then some (buf ++ c ∷ []) else none

-- The store behind the key's NUL is the one that can pass the end of the array.
unfoldable pub end_key : Load → Option Flow
end_key l =
    if ltb (length l.key_buf + 1) path_max
    then some (
        goes_on (record l {
          in_value = true;
          current_size =
              if leb l.current_size (length l.lines) then l.current_size * 2 else l.current_size;
          file_path = some l.key_buf;
          key_buf = [];
        }))
    else none

-- Any other byte, in the key or in the value.
unfoldable pub put_other : Bool → Load → ℕ → Option Flow
put_other true l c = put_char l.val_buf c >>= λ b. some (goes_on (record l { val_buf = b }))
put_other false l c = put_char l.key_buf c >>= λ b. some (goes_on (record l { key_buf = b }))

-- (char)EOF
abbrev pub eof : ℕ
eof = 255

module _ (atoi : Bytes → ℤ) where
  unfoldable pub end_line : Load → Option Flow
  end_line l =
      if ltb (length l.lines) l.current_size
      then some (
          goes_on (record l {
            in_value = false;
            lines = l.lines ++ record { file_path = l.file_path; mru_score = atoi l.val_buf } ∷ [];
            file_path = none;
            val_buf = [];
          }))
      else none

  unfoldable pub load_char : Load → ℕ → Option Flow
  load_char l c =
      if c == 58
      then end_key l
      else if c == 10
      then end_line l
      else if c == 0
      then some (leaves l)
      else put_other l.in_value l c

  -- The loop over what fgetc gives; with nothing more given it has not been left.
  unfoldable pub load_chars : Load → List ℕ → Option Flow
  load_chars l [] = some (goes_on l)
  load_chars l (c ∷ cs) =
      load_char l c >>= λ f. elim f [ leaves m ↦ some (leaves m) | goes_on m ↦ load_chars m cs ]
