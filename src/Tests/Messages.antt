-- ===== src/Tests/Messages.antt =====
-- Requests and responses of src/msgpack_handler.c at concrete inputs.
use magit.Base.{
  ℕ, zero, suc, ◌≡◌, ◌≢◌, refl, ◌⊎◌, inr, ◌<◌, ◌^◌, ◌↔◌, Option, none, some, List, [], ◌∷◌, ◌++◌,
  Bytes, All, length, ℤ, pos,
}
use magit.Git.Refs.{codes}
use magit.Message.{
  Value, uint, str, Unpacked, map, invalid_cmd_val_type, unexpected_msg, err, msgkey_id, msgkey_cmd,
  to_enum, cmd_git_status, msgpack_handler_recv,
}
use magit.Message.Pairs.{
  IsClean, last_uint, msgpack_handler_recv-clean, msgpack_handler_recv-Refuses,
}
use magit.Message.Response.{id, branch, key_code, msgpack_handler_buf_create}
use magit.Message.ReadBack.{
  Item, int, read_map, lookup_key, item_of, read_map-buf_create, read_map-id_iff,
}
use magit.Tests.Requests.{sample_res}

-- A git status for id 3, whose path comes twice.
abbrev pairs : List (Value × Value)
pairs =
    (uint 0, uint 3)
    ∷ (uint 1, uint 1)
    ∷ (uint 2, str (codes "/a"))
    ∷ (uint 2, str (codes "/b"))
    ∷ []

abbrev unpack : Bytes → Option Unpacked
unpack [] = none
unpack (suc zero ∷ _) = some (map pairs)
unpack _ = some (map ((uint 1, str []) ∷ []))

abbrev queue : List (ℕ × Option Bytes) → ℕ → Option Bytes → List (ℕ × Option Bytes)
queue l n pwd = l ++ (n, pwd) ∷ []

pairs-IsClean : All IsClean pairs
pairs-IsClean = (refl, (refl, (refl, (refl, tt))))

msgpack_handler_recv-clean_example :
    ((last_uint msgkey_id 0 pairs ≢ 0)
      × (to_enum (last_uint msgkey_cmd 0 pairs) ≡ cmd_git_status)
      × (msgpack_handler_recv queue unpack [] (1 ∷ [])
          ≡ ((3, some (codes "/b")) ∷ [], err unexpected_msg)))
    ⊎ (((last_uint msgkey_id 0 pairs ≡ 0)
          ⊎ (to_enum (last_uint msgkey_cmd 0 pairs) ≢ cmd_git_status))
        × (msgpack_handler_recv queue unpack [] (1 ∷ []) ≡ ([], err unexpected_msg)))
msgpack_handler_recv-clean_example =
    msgpack_handler_recv-clean queue unpack [] (1 ∷ []) pairs refl pairs-IsClean

msgpack_handler_recv-Refuses_example :
    msgpack_handler_recv queue unpack [] (2 ∷ []) ≡ ([], err invalid_cmd_val_type)
msgpack_handler_recv-Refuses_example =
    msgpack_handler_recv-Refuses queue unpack [] (2 ∷ []) (err invalid_cmd_val_type)
      (inr (inr ([], (uint 1, str []), [], invalid_cmd_val_type, refl, tt, refl, refl)))

read_map-buf_create_example :
    (found : List (ℤ × Item)) × (read_map (msgpack_handler_buf_create sample_res) ≡ some found)
    × (length found ≡ 28)
    × (lookup_key (key_code branch) found ≡ item_of sample_res branch)
read_map-buf_create_example = read_map-buf_create sample_res branch

read_map-id_iff_example :
    (found : List (ℤ × Item)) × (read_map (msgpack_handler_buf_create sample_res) ≡ some found)
    × ((lookup_key (key_code id) found ≡ some (int (pos 3))) ↔ (3 < 2 ^ 31))
read_map-id_iff_example = read_map-id_iff sample_res
