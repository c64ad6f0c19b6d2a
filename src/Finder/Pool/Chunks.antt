-- ===== src/Finder/Pool/Chunks.antt =====
-- The chunks of the pool in src/str_pool.c, and copies into them.
use magit.Base.{
  ℕ, zero, suc, ◌+◌, ◌≤◌, ◌<◌, ◌≡◌, refl, sym, ap, subst, ◌∙◌, arith, some, List, [], ◌∷◌, ◌++◌,
  Bytes, length, take, take-append_le, take-take, length-take, memcpy_fits, some_bind,
}
use magit.Finder.Pool.{Pool, chunk_at, put_chunk, write}

pub chunk_at-append :
    (cs ds : List Bytes) (i : ℕ) → i < length cs → chunk_at i (cs ++ ds) ≡ chunk_at i cs
chunk_at-append [] ds i h = elim h [ ]
chunk_at-append (c ∷ cs) ds zero h = refl
chunk_at-append (c ∷ cs) ds (suc i) h = chunk_at-append cs ds i (omega arith)

chunk_at-length : (cs : List Bytes) (d : Bytes) → chunk_at (length cs) (cs ++ d ∷ []) ≡ some d
chunk_at-length [] d = refl
chunk_at-length (c ∷ cs) d = chunk_at-length cs d

pub chunk_at-last :
    (cs : List Bytes) (d : Bytes) (i : ℕ) → length cs ≡ i → chunk_at i (cs ++ d ∷ []) ≡ some d
chunk_at-last cs d i h = subst (λ n. chunk_at n (cs ++ d ∷ []) ≡ some d) h (chunk_at-length cs d)

pub chunk_at-put :
    (cs : List Bytes) (i : ℕ) (d : Bytes) → i < length cs → chunk_at i (put_chunk i d cs) ≡ some d
chunk_at-put [] i d h = elim h [ ]
chunk_at-put (c ∷ cs) zero d h = refl
chunk_at-put (c ∷ cs) (suc i) d h = chunk_at-put cs i d (omega arith)

pub chunk_at-put_other :
    (cs : List Bytes) (i j : ℕ) (d : Bytes) → i < j → chunk_at i (put_chunk j d cs) ≡ chunk_at i cs
chunk_at-put_other [] i j d h = refl
chunk_at-put_other (c ∷ cs) i zero d h = elim h [ ]
chunk_at-put_other (c ∷ cs) zero (suc j) d h = refl
chunk_at-put_other (c ∷ cs) (suc i) (suc j) d h = chunk_at-put_other cs i j d (omega arith)

pub length-put_chunk : (cs : List Bytes) (i : ℕ) (d : Bytes) → length (put_chunk i d cs) ≡ length cs
length-put_chunk [] i d = refl
length-put_chunk (c ∷ cs) zero d = refl
length-put_chunk (c ∷ cs) (suc i) d = ap suc (length-put_chunk cs i d)

-- A copy into the last chunk that fits.
pub write_lem :
    (p : Pool) (cells : Bytes) (place : ℕ) (src : Bytes)
    → chunk_at p.idx p.chunks ≡ some cells
    → place + length src ≤ length cells
    → (buf : Bytes) × (write p.idx place src p
        ≡ some (record p { chunks = put_chunk p.idx buf p.chunks }))
      × (length buf ≡ length cells)
      × (take (place + length src) buf ≡ take place cells ++ src)
unfolding write
write_lem p cells place src there fits =
    let (buf, e, size, front) = memcpy_fits cells place src (length src) refl fits in
    (buf, some_bind _ there ∙ some_bind _ e, size, front)

-- What a copy leaves in front of its place.
pub kept :
    (m n k : ℕ) (buf later src : Bytes)
    → take (n + k) later ≡ take n buf ++ src
    → m ≤ n
    → n ≤ length buf
    → take m later ≡ take m buf
kept m n k buf later src e h size =
    sym (take-take m (n + k) later (omega arith))
    ∙ ap (take m) e
    ∙ take-append_le m (take n buf) src (omega (arith, length-take n buf))
    ∙ take-take m n buf h

pub chunk_at-below : (cs : List Bytes) (i : ℕ) (c : Bytes) → chunk_at i cs ≡ some c → i < length cs
chunk_at-below [] i c h = cc
chunk_at-below (d ∷ cs) zero c h = omega arith
chunk_at-below (d ∷ cs) (suc i) c h = omega (arith, chunk_at-below cs i c h)
