-- ===== src/Message/Pairs.antt =====
-- How `msgpack_handler_recv` of src/msgpack_handler.c reads a map of pairs.
use magit.Base.{
  ℕ, ◌≡◌, ◌≢◌, refl, ◌⊎◌, inl, inr, Option, none, some, List, [], ◌∷◌, ◌++◌, Bytes, All, arith,
  ◌==◌, if◌then◌else◌,
}
use magit.Message.{
  Value, uint, str, other, Unpacked, map, not_map, Err, invalid_key_type, invalid_key_val_type,
  invalid_cmd_val_type, invalid_pwd_val_type, unexpected_msg, RecvCode, minus_one, err, msgkey_id,
  msgkey_cmd, msgkey_pwd, cmd_git_status, Request, no_request, to_enum, drop_pwd, stop, scanned,
  scan_entry, scan_entries, dispatch, recv_map, recv_unpacked, msgpack_handler_recv,
}

-- What is wrong with a pair, if anything.
abbrev pub fault_of : Value × Value → Option Err
fault_of (uint k, uint v) = if to_enum k == msgkey_pwd then some invalid_pwd_val_type else none
fault_of (uint k, str s) =
    if to_enum k == msgkey_id
    then some invalid_key_val_type
    else if to_enum k == msgkey_cmd
    then some invalid_cmd_val_type
    else none
fault_of (uint k, other) =
    if to_enum k == msgkey_id
    then some invalid_key_val_type
    else if to_enum k == msgkey_cmd
    then some invalid_cmd_val_type
    else if to_enum k == msgkey_pwd
    then some invalid_pwd_val_type
    else none
fault_of (str s, v) = some invalid_key_type
fault_of (other, v) = some invalid_key_type

abbrev pub IsClean : Value × Value → Type 0
IsClean pair = fault_of pair ≡ none

-- The last number under a key, or a default.
abbrev pub last_uint : ℕ → ℕ → List (Value × Value) → ℕ
last_uint key d [] = d
last_uint key d ((uint k, uint v) ∷ rest) = last_uint key (if to_enum k == key then v else d) rest
last_uint key d (_ ∷ rest) = last_uint key d rest

-- The texts under MSGKEY_PWD_STR, in order.
abbrev pub pwds : List (Value × Value) → List Bytes
pwds [] = []
pwds ((uint k, str s) ∷ rest) = if to_enum k == msgkey_pwd then s ∷ pwds rest else pwds rest
pwds (_ ∷ rest) = pwds rest

abbrev pub last_pwd : Option Bytes → List Bytes → Option Bytes
last_pwd d [] = d
last_pwd d (s ∷ ss) = last_pwd (some s) ss

-- All but the last text, in front of those that were lost before.
abbrev pub lost_pwds : Option Bytes → List Bytes → List Bytes → List Bytes
lost_pwds d lost [] = lost
lost_pwds d lost (s ∷ ss) = lost_pwds (some s) (drop_pwd d lost) ss

-- A map with no pair at fault leaves the last id, command and path under their keys, and loses
-- every path but the last: each `str_create` but the last one is never freed.
pub scan_entries-clean :
    (r : Request) (pairs : List (Value × Value))
    → All IsClean pairs
    → scan_entries r pairs
      ≡ scanned (record {
        id = last_uint msgkey_id r.id pairs;
        cmd = last_uint msgkey_cmd r.cmd pairs;
        pwd = last_pwd r.pwd (pwds pairs);
        leaked = lost_pwds r.pwd r.leaked (pwds pairs);
      })
unfolding scan_entries scan_entry
scan_entries-clean r [] h = refl
scan_entries-clean r ((uint k, uint v) ∷ rest) h = ground (
  arith,
  scan_entries-clean (record r { id = v }) rest h.1,
  scan_entries-clean (record r { cmd = v }) rest h.1,
  scan_entries-clean r rest h.1,
)
scan_entries-clean r ((uint k, str s) ∷ rest) h = ground (
  arith,
  scan_entries-clean (record r { pwd = some s; leaked = drop_pwd r.pwd r.leaked }) rest h.1,
  scan_entries-clean r rest h.1,
)
scan_entries-clean r ((uint k, other) ∷ rest) h = ground (arith, scan_entries-clean r rest h.1)
scan_entries-clean r ((str s, v) ∷ rest) h = cc
scan_entries-clean r ((other, v) ∷ rest) h = cc

-- The first pair at fault decides, whatever stands behind it.
scan_entries-fault :
    (r : Request) (before : List (Value × Value)) (bad : Value × Value)
    (after : List (Value × Value)) (e : Err)
    → All IsClean before
    → fault_of bad ≡ some e
    → scan_entries r (before ++ bad ∷ after) ≡ stop e
unfolding scan_entries scan_entry
scan_entries-fault r [] (uint k, uint v) after e h f = ground arith
scan_entries-fault r [] (uint k, str s) after e h f = ground arith
scan_entries-fault r [] (uint k, other) after e h f = ground arith
scan_entries-fault r [] (str s, v) after e h f = ground arith
scan_entries-fault r [] (other, v) after e h f = ground arith
scan_entries-fault r ((uint k, uint v) ∷ rest) bad after e h f = ground (
  arith,
  scan_entries-fault (record r { id = v }) rest bad after e h.1 f,
  scan_entries-fault (record r { cmd = v }) rest bad after e h.1 f,
  scan_entries-fault r rest bad after e h.1 f,
)
scan_entries-fault r ((uint k, str s) ∷ rest) bad after e h f = ground (
  arith,
  scan_entries-fault (record r { pwd = some s; leaked = drop_pwd r.pwd r.leaked }) rest bad after e
      h.1 f,
  scan_entries-fault r rest bad after e h.1 f,
)
scan_entries-fault r ((uint k, other) ∷ rest) bad after e h f =
    ground (arith, scan_entries-fault r rest bad after e h.1 f)
scan_entries-fault r ((str s, v) ∷ rest) bad after e h f = cc
scan_entries-fault r ((other, v) ∷ rest) bad after e h f = cc

module _ {L : Type 0} (queue : L → ℕ → Option Bytes → L) (unpack : Bytes → Option Unpacked) where
  -- On a map with no pair at fault, `msgpack_handler_recv` queues a git status, with the last id
  -- and the last path of the map, when that id is not 0 and the last command is 1 modulo 2^32;
  -- otherwise it leaves the loop as it was. In both cases it returns ERR_UNEXPECTED_MSG.
  pub msgpack_handler_recv-clean :
      (l : L) (input : Bytes) (pairs : List (Value × Value))
      → unpack input ≡ some (map pairs)
      → All IsClean pairs
      → ((last_uint msgkey_id 0 pairs ≢ 0)
          × (to_enum (last_uint msgkey_cmd 0 pairs) ≡ cmd_git_status)
          × (msgpack_handler_recv queue unpack l input ≡ (
            queue l (last_uint msgkey_id 0 pairs) (last_pwd none (pwds pairs)),
            err unexpected_msg,
          )))
        ⊎ (((last_uint msgkey_id 0 pairs ≡ 0)
              ⊎ (to_enum (last_uint msgkey_cmd 0 pairs) ≢ cmd_git_status))
            × (msgpack_handler_recv queue unpack l input ≡ (l, err unexpected_msg)))
  unfolding msgpack_handler_recv recv_unpacked recv_map dispatch
  msgpack_handler_recv-clean l input pairs e h =
      ground (arith, scan_entries-clean no_request pairs h)

  -- Input that is refused, and the code: bytes that do not unpack, a value that is no map, or a
  -- map with a pair at fault behind none or more that are not.
  abbrev pub Refuses : Bytes → RecvCode → Type 0
  Refuses input code =
      ((unpack input ≡ none) × (code ≡ minus_one))
      ⊎ ((unpack input ≡ some not_map) × (code ≡ minus_one))
      ⊎ ((before : List (Value × Value)) × (bad : Value × Value) × (after : List (Value × Value))
          × (e : Err) × (unpack input ≡ some (map (before ++ bad ∷ after)))
          × All IsClean before
          × (fault_of bad ≡ some e)
          × (code ≡ err e))

  -- Refused input leaves the loop as it was, and `msgpack_handler_recv` returns its code: -1 for
  -- what is no map, and for a map the code of the first pair at fault.
  pub msgpack_handler_recv-Refuses :
      (l : L) (input : Bytes) (code : RecvCode)
      → Refuses input code
      → msgpack_handler_recv queue unpack l input ≡ (l, code)
  unfolding msgpack_handler_recv recv_unpacked recv_map
  msgpack_handler_recv-Refuses l input code (inl (u, c)) = ground arith
  msgpack_handler_recv-Refuses l input code (inr (inl (u, c))) = ground arith
  msgpack_handler_recv-Refuses l input code (inr (inr (before, bad, after, e, u, h, f, c))) =
      ground (arith, scan_entries-fault no_request before bad after e h f)
