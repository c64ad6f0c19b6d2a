-- ===== src/Message/ReadBack.antt =====
-- What a reader of the response of src/msgpack_handler.c finds under each key.
use magit.Base.{
  ℕ, zero, suc, ◌^◌, ◌<◌, ◌≡◌, ◌↔◌, refl, sym, ap, ◌∙◌, Option, none, some, List, [], ◌∷◌, ◌++◌,
  append_assoc, append-nil, Bytes, length, ℤ, pos, negsuc, to_int, to_int_iff, ◌==◌, if◌then◌else◌,
  arith,
}
use magit.Message.Response.{
  Res, ResKey, key_code, id, git_root, rev_head, magit_extension, list_z, branch, head_log_line,
  upstream_branch, upstream_subj, tag_desc, opt_tag_desc_head, version, worktree_porcelain,
  dot_git_dir, config_status_show_untracked_files, status, diff, staged, is_bare, stash, branches,
  rev_idx, logs, rev_short_head, tag_master, tag_origin_master, origin_head, tag_origin_head,
  upstream_branch_master, Token, pack_map, pack_int, pack_str, pack_str_body, append_key_val_str,
  append_key_val_int, msgpack_handler_buf_create,
}

pub data Item : Type 0 where
  int : ℤ → Item
  text : Bytes → Item

abbrev cons_pair : ℤ → Item → Option (List (ℤ × Item)) → Option (List (ℤ × Item))
cons_pair k v none = none
cons_pair k v (some rest) = some ((k, v) ∷ rest)

-- `n` pairs and nothing behind them. A text of length n has n bytes of body; an empty body
-- writes nothing, so it may stand or be missing.
unfoldable pub read_pairs : ℕ → List Token → Option (List (ℤ × Item))
read_pairs zero [] = some []
read_pairs n (pack_str_body [] ∷ ts) = read_pairs n ts
read_pairs (suc n) (pack_int k ∷ pack_int v ∷ ts) = cons_pair k (int v) (read_pairs n ts)
read_pairs (suc n) (pack_int k ∷ pack_str zero ∷ ts) = cons_pair k (text []) (read_pairs n ts)
read_pairs (suc n) (pack_int k ∷ pack_str (suc m) ∷ pack_str_body s ∷ ts) =
    if length s == suc m then cons_pair k (text s) (read_pairs n ts) else none
read_pairs _ _ = none

pub read_map : List Token → Option (List (ℤ × Item))
read_map (pack_map n ∷ ts) = read_pairs n ts
read_map _ = none

data Field : Type 0 where
  str_field : Option Bytes → Field
  int_field : ℕ → Field

abbrev or_empty : Option Bytes → Bytes
or_empty none = []
or_empty (some s) = s

abbrev item : Field → Item
item (str_field s) = text (or_empty s)
item (int_field v) = int (to_int v)

tokens : ResKey × Field → List Token
unfolding append_key_val_str append_key_val_int
tokens (k, str_field s) = append_key_val_str [] k s
tokens (k, int_field v) = append_key_val_int [] k v

abbrev fields : Res → List (ResKey × Field)
fields r =
    (id, int_field r.id)
    ∷ (git_root, str_field r.git_root)
    ∷ (rev_head, str_field r.rev_head)
    ∷ (list_z, str_field r.list_z)
    ∷ (branch, str_field r.branch)
    ∷ (head_log_line, str_field r.head_log_line)
    ∷ (upstream_branch, str_field r.upstream_branch)
    ∷ (upstream_subj, str_field r.upstream_subj)
    ∷ (tag_desc, str_field r.tag_desc)
    ∷ (opt_tag_desc_head, str_field r.opt_tag_desc_head)
    ∷ (version, str_field r.version)
    ∷ (worktree_porcelain, str_field r.worktree_porcelain)
    ∷ (dot_git_dir, str_field r.dot_git_dir)
    ∷ (config_status_show_untracked_files, str_field r.config_status_show_untracked_files)
    ∷ (status, str_field r.status)
    ∷ (diff, str_field r.diff)
    ∷ (staged, str_field r.staged)
    ∷ (is_bare, int_field r.is_bare)
    ∷ (stash, str_field r.stash)
    ∷ (branches, str_field r.branches)
    ∷ (rev_idx, str_field r.revision_by_idx)
    ∷ (logs, str_field r.logs)
    ∷ (rev_short_head, str_field r.rev_short_head)
    ∷ (tag_master, str_field r.tag_master)
    ∷ (tag_origin_master, str_field r.tag_origin_master)
    ∷ (origin_head, str_field r.origin_head)
    ∷ (tag_origin_head, str_field r.tag_origin_head)
    ∷ (upstream_branch_master, str_field r.upstream_branch_master)
    ∷ []

abbrev tokens_all : List (ResKey × Field) → List Token
tokens_all [] = []
tokens_all (f ∷ fs) = tokens f ++ tokens_all fs

append_str :
    (out : List Token) (k : ResKey) (s : Option Bytes)
    → append_key_val_str out k s ≡ out ++ tokens (k, str_field s)
unfolding append_key_val_str tokens
append_str out k none = refl
append_str out k (some s) = refl

append_int :
    (out : List Token) (k : ResKey) (v : ℕ)
    → append_key_val_int out k v ≡ out ++ tokens (k, int_field v)
unfolding append_key_val_int tokens
append_int out k v = refl

buf_create-tokens_all :
    (r : Res) → msgpack_handler_buf_create r ≡ pack_map 28 ∷ tokens_all (fields r)
unfolding msgpack_handler_buf_create
buf_create-tokens_all r = simp (append_str, append_int, append_assoc, append-nil)

abbrev pairs_of : List (ResKey × Field) → List (ℤ × Item)
pairs_of [] = []
pairs_of ((k, f) ∷ fs) = (pos (key_code k), item f) ∷ pairs_of fs

skip_body : (n : ℕ) (ts : List Token) → read_pairs n (pack_str_body [] ∷ ts) ≡ read_pairs n ts
unfolding read_pairs
skip_body zero ts = refl
skip_body (suc n) ts = refl

read_pairs-tokens :
    (n : ℕ) (f : ResKey × Field) (ts : List Token)
    → read_pairs (suc n) (tokens f ++ ts)
      ≡ cons_pair (pos (key_code f.0)) (item f.1) (read_pairs n ts)
unfolding read_pairs tokens
read_pairs-tokens n (k, str_field none) ts = refl
read_pairs-tokens n (k, str_field (some [])) ts =
    ap (cons_pair (pos (key_code k)) (text [])) (skip_body n ts)
read_pairs-tokens n (k, str_field (some (c ∷ cs))) ts = ground arith
read_pairs-tokens n (k, int_field v) ts = refl

read_pairs-tokens_all :
    (fs : List (ResKey × Field)) → read_pairs (length fs) (tokens_all fs) ≡ some (pairs_of fs)
read_pairs-tokens_all [] = unfold read_pairs in refl
read_pairs-tokens_all (f ∷ fs) =
    rw (read_pairs-tokens (length fs) f (tokens_all fs), read_pairs-tokens_all fs)

-- The first item under a key.
abbrev pub lookup_key : ℕ → List (ℤ × Item) → Option Item
lookup_key k [] = none
lookup_key k ((pos j, v) ∷ rest) = if j == k then some v else lookup_key k rest
lookup_key k ((negsuc j, v) ∷ rest) = lookup_key k rest

-- What stands under a key, in the order of enum MAGIT_RES_KEY; a NULL string reads as the empty
-- text, and the one key without an entry is the third.
abbrev pub item_of : Res → ResKey → Option Item
item_of r id = some (int (to_int r.id))
item_of r git_root = some (text (or_empty r.git_root))
item_of r rev_head = some (text (or_empty r.rev_head))
item_of r magit_extension = none
item_of r list_z = some (text (or_empty r.list_z))
item_of r branch = some (text (or_empty r.branch))
item_of r head_log_line = some (text (or_empty r.head_log_line))
item_of r upstream_branch = some (text (or_empty r.upstream_branch))
item_of r upstream_subj = some (text (or_empty r.upstream_subj))
item_of r tag_desc = some (text (or_empty r.tag_desc))
item_of r opt_tag_desc_head = some (text (or_empty r.opt_tag_desc_head))
item_of r version = some (text (or_empty r.version))
item_of r worktree_porcelain = some (text (or_empty r.worktree_porcelain))
item_of r dot_git_dir = some (text (or_empty r.dot_git_dir))
item_of r config_status_show_untracked_files =
    some (text (or_empty r.config_status_show_untracked_files))
item_of r status = some (text (or_empty r.status))
item_of r diff = some (text (or_empty r.diff))
item_of r staged = some (text (or_empty r.staged))
item_of r is_bare = some (int (to_int r.is_bare))
item_of r stash = some (text (or_empty r.stash))
item_of r branches = some (text (or_empty r.branches))
item_of r rev_idx = some (text (or_empty r.revision_by_idx))
item_of r logs = some (text (or_empty r.logs))
item_of r rev_short_head = some (text (or_empty r.rev_short_head))
item_of r tag_master = some (text (or_empty r.tag_master))
item_of r tag_origin_master = some (text (or_empty r.tag_origin_master))
item_of r origin_head = some (text (or_empty r.origin_head))
item_of r tag_origin_head = some (text (or_empty r.tag_origin_head))
item_of r upstream_branch_master = some (text (or_empty r.upstream_branch_master))

lookup_key-pairs_of :
    (r : Res) (k : ResKey) → lookup_key (key_code k) (pairs_of (fields r)) ≡ item_of r k
lookup_key-pairs_of r id = refl
lookup_key-pairs_of _ _ = refl

int-injective : {a b : ℤ} → some (int a) ≡ some (int b) → a ≡ b
int-injective h = cc

-- The packed response reads back as a map of the 28 pairs that its header announces, with nothing
-- behind them, and under each key of enum MAGIT_RES_KEY stands that key's field.
pub read_map-buf_create :
    (r : Res) (k : ResKey)
    → (pairs : List (ℤ × Item)) × (read_map (msgpack_handler_buf_create r) ≡ some pairs)
      × (length pairs ≡ 28)
      × (lookup_key (key_code k) pairs ≡ item_of r k)
unfolding read_map
read_map-buf_create r k = (
  pairs_of (fields r),
  rw (buf_create-tokens_all r) (read_pairs-tokens_all (fields r)),
  refl,
  lookup_key-pairs_of r k,
)

-- The id that a reader finds is the request's exactly when the id is below 2^31.
pub read_map-id_iff :
    (r : Res)
    → (pairs : List (ℤ × Item)) × (read_map (msgpack_handler_buf_create r) ≡ some pairs)
      × ((lookup_key (key_code id) pairs ≡ some (int (pos r.id))) ↔ (r.id < 2 ^ 31))
read_map-id_iff r =
    let (pairs, e, _, at) = read_map-buf_create r id in
    (
      pairs,
      e,
      (
        λ h. (to_int_iff r.id).0 (int-injective (sym at ∙ h)),
        λ h. at ∙ ap (λ v. some (int v)) ((to_int_iff r.id).1 h),
      ),
    )
