-- ===== src/Message/Response.antt =====
-- src/msgpack_handler.c and .h: the response `magit_res_T` and how it is packed and sent.
-- Each call of a msgpack packer is a `Token`; how msgpack-c writes a token is the parameter `write`.
use magit.Base.{
  ℕ, ◌/◌, ◌%◌, ◌^◌, Option, none, some, List, [], ◌∷◌, ◌++◌, Bytes, length, ℤ, pos, to_int,
}

-- struct magit_res_T; `none` is a NULL string.
pub record Res : Type 0 where
  pub id : ℕ
  pub git_root : Option Bytes
  pub rev_head : Option Bytes
  pub list_z : Option Bytes
  pub branch : Option Bytes
  pub upstream_branch : Option Bytes
  pub head_log_line : Option Bytes
  pub upstream_subj : Option Bytes
  pub tag_desc : Option Bytes
  pub opt_tag_desc_head : Option Bytes
  pub version : Option Bytes
  pub worktree_porcelain : Option Bytes
  pub dot_git_dir : Option Bytes
  pub config_status_show_untracked_files : Option Bytes
  pub status : Option Bytes
  pub diff : Option Bytes
  pub staged : Option Bytes
  pub is_bare : ℕ
  pub stash : Option Bytes
  pub branches : Option Bytes
  pub revision_by_idx : Option Bytes
  pub logs : Option Bytes
  pub rev_short_head : Option Bytes
  pub tag_master : Option Bytes
  pub tag_origin_master : Option Bytes
  pub origin_head : Option Bytes
  pub tag_origin_head : Option Bytes
  pub upstream_branch_master : Option Bytes

-- enum MAGIT_RES_KEY
pub data ResKey : Type 0 where
  id git_root rev_head magit_extension list_z branch head_log_line upstream_branch : ResKey
  upstream_subj tag_desc opt_tag_desc_head version worktree_porcelain dot_git_dir : ResKey
  config_status_show_untracked_files status diff staged is_bare stash branches : ResKey
  rev_idx logs rev_short_head tag_master tag_origin_master origin_head tag_origin_head : ResKey
  upstream_branch_master : ResKey

abbrev pub key_code : ResKey → ℕ
key_code id = 0
key_code git_root = 1
key_code rev_head = 2
key_code magit_extension = 3
key_code list_z = 4
key_code branch = 5
key_code head_log_line = 6
key_code upstream_branch = 7
key_code upstream_subj = 8
key_code tag_desc = 9
key_code opt_tag_desc_head = 10
key_code version = 11
key_code worktree_porcelain = 12
key_code dot_git_dir = 13
key_code config_status_show_untracked_files = 14
key_code status = 15
key_code diff = 16
key_code staged = 17
key_code is_bare = 18
key_code stash = 19
key_code branches = 20
key_code rev_idx = 21
key_code logs = 22
key_code rev_short_head = 23
key_code tag_master = 24
key_code tag_origin_master = 25
key_code origin_head = 26
key_code tag_origin_head = 27
key_code upstream_branch_master = 28

-- msgpack_pack_map, msgpack_pack_int (whose argument is an `int`), msgpack_pack_str and
-- msgpack_pack_str_body
pub data Token : Type 0 where
  pack_map : ℕ → Token
  pack_int : ℤ → Token
  pack_str : ℕ → Token
  pack_str_body : Bytes → Token

unfoldable pub append_key_val_str : List Token → ResKey → Option Bytes → List Token
append_key_val_str out key (some s) =
    out ++ (pack_int (pos (key_code key)) ∷ pack_str (length s) ∷ pack_str_body s ∷ [])
append_key_val_str out key none = out ++ (pack_int (pos (key_code key)) ∷ pack_str 0 ∷ [])

unfoldable pub append_key_val_int : List Token → ResKey → ℕ → List Token
append_key_val_int out key val = out ++ (pack_int (pos (key_code key)) ∷ pack_int (to_int val) ∷ [])

unfoldable pub msgpack_handler_buf_create : Res → List Token
msgpack_handler_buf_create res =
    let t0 = append_key_val_int (pack_map 28 ∷ []) id res.id in
    let t1 = append_key_val_str t0 git_root res.git_root in
    let t2 = append_key_val_str t1 rev_head res.rev_head in
    let t3 = append_key_val_str t2 list_z res.list_z in
    let t4 = append_key_val_str t3 branch res.branch in
    let t5 = append_key_val_str t4 head_log_line res.head_log_line in
    let t6 = append_key_val_str t5 upstream_branch res.upstream_branch in
    let t7 = append_key_val_str t6 upstream_subj res.upstream_subj in
    let t8 = append_key_val_str t7 tag_desc res.tag_desc in
    let t9 = append_key_val_str t8 opt_tag_desc_head res.opt_tag_desc_head in
    let t10 = append_key_val_str t9 version res.version in
    let t11 = append_key_val_str t10 worktree_porcelain res.worktree_porcelain in
    let t12 = append_key_val_str t11 dot_git_dir res.dot_git_dir in
    let t13 =
      append_key_val_str t12 config_status_show_untracked_files
        res.config_status_show_untracked_files in
    let t14 = append_key_val_str t13 status res.status in
    let t15 = append_key_val_str t14 diff res.diff in
    let t16 = append_key_val_str t15 staged res.staged in
    let t17 = append_key_val_int t16 is_bare res.is_bare in
    let t18 = append_key_val_str t17 stash res.stash in
    let t19 = append_key_val_str t18 branches res.branches in
    let t20 = append_key_val_str t19 rev_idx res.revision_by_idx in
    let t21 = append_key_val_str t20 logs res.logs in
    let t22 = append_key_val_str t21 rev_short_head res.rev_short_head in
    let t23 = append_key_val_str t22 tag_master res.tag_master in
    let t24 = append_key_val_str t23 tag_origin_master res.tag_origin_master in
    let t25 = append_key_val_str t24 origin_head res.origin_head in
    let t26 = append_key_val_str t25 tag_origin_head res.tag_origin_head in
    append_key_val_str t26 upstream_branch_master res.upstream_branch_master

-- The four bytes of `header` for a length, which is cut to 32 bits.
unfoldable pub header : ℕ → Bytes
header size =
    let len = size % 2 ^ 32 in
    len / 2 ^ 24 % 256 ∷ len / 2 ^ 16 % 256 ∷ len / 2 ^ 8 % 256 ∷ len % 256 ∷ []

abbrev pub write_all : (Token → Bytes) → List Token → Bytes
write_all write [] = []
write_all write (t ∷ ts) = write t ++ write_all write ts

-- Both calls of `fwrite`: what goes to standard output for a packed message.
unfoldable pub frame : Bytes → Bytes
frame msg = header (length msg) ++ msg

unfoldable pub msgpack_handler_send : (Token → Bytes) → Res → Bytes
msgpack_handler_send write res = frame (write_all write (msgpack_handler_buf_create res))
