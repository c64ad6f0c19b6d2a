-- ===== src/Finder/Pool.antt =====
-- src/str_pool.c: strings copied into chunks that never move. What malloc leaves in a chunk is
-- taken to be zeros; nothing reads it. A write outside a chunk is a fault, the result `none`.
pub mod Chunks
pub mod Strings
use magit.Base.{
  ℕ, zero, suc, ◌+◌, ◌%◌, ◌^◌, Option, none, some, List, [], ◌∷◌, ◌++◌, Bytes, length, replicate,
  leb, ◌==◌, if◌then◌else◌, sub64, memcpy, ◌>>=◌,
}

-- The arrays of the chunks, and the fields of the first element that the code uses.
pub record Pool : Type 0 where
  pub chunks : List Bytes
  pub idx : ℕ
  pub pos : ℕ
  pub sz : ℕ

-- The address of a string: its chunk, and its place there.
abbrev pub Address : Type 0
Address = ℕ × ℕ

unfoldable pub init_str_pool : ℕ → Pool
init_str_pool sz = record { chunks = replicate sz 0 ∷ []; idx = 0; pos = 0; sz = sz }

abbrev pub chunk_at : ℕ → List Bytes → Option Bytes
chunk_at i [] = none
chunk_at zero (c ∷ cs) = some c
chunk_at (suc i) (c ∷ cs) = chunk_at i cs

abbrev pub put_chunk : ℕ → Bytes → List Bytes → List Bytes
put_chunk i d [] = []
put_chunk zero d (c ∷ cs) = d ∷ cs
put_chunk (suc i) d (c ∷ cs) = c ∷ put_chunk i d cs

-- A copy to `&pool[i]->strings[place]`.
unfoldable pub write : ℕ → ℕ → Bytes → Pool → Option Pool
write i place src p = chunk_at i p.chunks >>= λ cells.
    memcpy cells place src >>= λ buf. some (record p { chunks = put_chunk i buf p.chunks })

-- The new chunk, if the string does not fit the last.
unfoldable pub grow : ℕ → Pool → Pool
grow s_len p =
    let initial_sz = (p.sz + s_len + 1) % 2 ^ 64 in
    record {
      chunks = p.chunks ++ replicate initial_sz 0 ∷ [];
      idx = p.idx + 1;
      pos = 0;
      sz = initial_sz;
    }

unfoldable pub make_room : ℕ → Pool → Pool
make_room s_len p = if leb (sub64 p.sz p.pos) s_len then grow s_len p else p

-- strcpy, the NUL behind it, and the new position.
unfoldable pub store_string : Bytes → ℕ → Pool → Option (Pool × Address)
store_string s s_len p = write p.idx p.pos (s ++ 0 ∷ []) p >>= λ q.
    write p.idx (p.pos + s_len) (0 ∷ []) q >>= λ r.
    some (record r { pos = p.pos + s_len + 1 }, (p.idx, p.pos))

unfoldable pub pool_str_with_len : Pool → Bytes → ℕ → Option (Pool × Address)
pool_str_with_len p s len =
    let s_len = if len == 0 then length s + 1 else len + 1 in
    store_string s s_len (make_room s_len p)
