-- ===== src/Message.antt =====
-- src/msgpack_handler.c: `msgpack_handler_recv`, with the codes of src/codes.h.
-- What `msgpack_unpack_next` makes of the bytes is the parameter `unpack`, and
-- `git_handler_queue_git_status` is the parameter `queue` on the state `L` of the event loop.
pub mod Response
pub mod Pairs
pub mod ReadBack
use magit.Base.{
  ℕ, ◌%◌, ◌^◌, Bool, true, false, not, ◌&&◌, Option, none, some, List, [], ◌∷◌, Bytes, ◌==◌,
  if◌then◌else◌,
}

-- The types of `msgpack_object` that the code asks for.
pub data Value : Type 0 where
  uint : ℕ → Value
  str : Bytes → Value
  other : Value

pub data Unpacked : Type 0 where
  map : List (Value × Value) → Unpacked
  not_map : Unpacked

-- enum ERR
pub data Err : Type 0 where
  invalid_key_type invalid_key_val_type invalid_cmd_val_type invalid_pwd_val_type unexpected_msg :
      Err

-- What `msgpack_handler_recv` returns: -1 or a code of enum ERR.
pub data RecvCode : Type 0 where
  minus_one : RecvCode
  err : Err → RecvCode

-- enum MSGKEY and enum CMD
abbrev pub msgkey_id : ℕ
msgkey_id = 0

abbrev pub msgkey_cmd : ℕ
msgkey_cmd = 1

abbrev pub msgkey_pwd : ℕ
msgkey_pwd = 2

abbrev pub cmd_git_status : ℕ
cmd_git_status = 1

-- The locals of the function, and the strings that `pwd` pointed to before it was set again.
pub record Request : Type 0 where
  pub id : ℕ
  pub cmd : ℕ
  pub pwd : Option Bytes
  pub leaked : List Bytes

abbrev pub no_request : Request
no_request = record { id = 0; cmd = 0; pwd = none; leaked = [] }

-- A 64-bit value converted to an enum, whose type is a 32-bit `unsigned int`.
abbrev pub to_enum : ℕ → ℕ
to_enum v = v % 2 ^ 32

pub data Scan : Type 0 where
  stop : Err → Scan
  scanned : Request → Scan

set_id : Request → Value → Scan
set_id r (uint v) = scanned (record r { id = v })
set_id r _ = stop invalid_key_val_type

set_cmd : Request → Value → Scan
set_cmd r (uint v) = scanned (record r { cmd = v })
set_cmd r _ = stop invalid_cmd_val_type

abbrev pub drop_pwd : Option Bytes → List Bytes → List Bytes
drop_pwd none leaked = leaked
drop_pwd (some s) leaked = s ∷ leaked

set_pwd : Request → Value → Scan
set_pwd r (str s) = scanned (record r { pwd = some s; leaked = drop_pwd r.pwd r.leaked })
set_pwd r _ = stop invalid_pwd_val_type

-- The body of the loop over the map's pairs.
unfoldable pub scan_entry : Request → Value → Value → Scan
unfolding set_id set_cmd set_pwd
scan_entry r (uint k) val =
    if to_enum k == msgkey_id
    then set_id r val
    else if to_enum k == msgkey_cmd
    then set_cmd r val
    else if to_enum k == msgkey_pwd
    then set_pwd r val
    else scanned r
scan_entry r _ val = stop invalid_key_type

unfoldable pub scan_entries : Request → List (Value × Value) → Scan
scan_entries r [] = scanned r
scan_entries r ((key, val) ∷ rest) = elim (scan_entry r key val) [
  | stop e ↦ stop e
  | scanned q ↦ scan_entries q rest
]

module _ {L : Type 0} (queue : L → ℕ → Option Bytes → L) where
  -- From the test of `id` and `cmd` on; the one command is `CMD_GIT_STATUS`.
  unfoldable pub dispatch : L → Request → L
  dispatch l r =
      if not (r.id == 0) && not (r.cmd == 0)
      then (if to_enum r.cmd == cmd_git_status then queue l r.id r.pwd else l)
      else l

  unfoldable pub recv_map : L → Scan → L × RecvCode
  recv_map l (stop e) = (l, err e)
  recv_map l (scanned r) = (dispatch l r, err unexpected_msg)

  unfoldable pub recv_unpacked : L → Option Unpacked → L × RecvCode
  recv_unpacked l none = (l, minus_one)
  recv_unpacked l (some not_map) = (l, minus_one)
  recv_unpacked l (some (map pairs)) = recv_map l (scan_entries no_request pairs)

  unfoldable pub msgpack_handler_recv : (Bytes → Option Unpacked) → L → Bytes → L × RecvCode
  msgpack_handler_recv unpack l input = recv_unpacked l (unpack input)
