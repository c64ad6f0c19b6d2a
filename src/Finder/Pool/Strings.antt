-- ===== src/Finder/Pool/Strings.antt =====
-- The pool of src/str_pool.c keeps its strings.
use magit.Base.{
  ℕ, ◌+◌, ◌%◌, ◌^◌, ◌≤◌, ◌<◌, ◌≡◌, refl, sym, ap, ◌∙◌, ◌⊎◌, inl, inr, arith, Option, some, [], ◌∷◌,
  ◌++◌, Bytes, length, take, length-append, length-take, length-replicate, replicate, leb, leb→gt,
  Bool-cases, ◌==◌, if◌then◌else◌, sub64, sub64_lem, some_bind,
}
use magit.Finder.Pool.{
  Pool, Address, init_str_pool, chunk_at, put_chunk, grow, make_room, store_string,
  pool_str_with_len,
}
use magit.Finder.Pool.Chunks.{
  chunk_at-append, chunk_at-last, chunk_at-put, chunk_at-put_other, length-put_chunk, write_lem,
  kept, chunk_at-below,
}

-- The last chunk has the size that is kept, and the position is within it.
pub record IsValid (p : Pool) : Type 0 where
  pub count : length p.chunks ≡ p.idx + 1
  pub last : (cells : Bytes) × (chunk_at p.idx p.chunks ≡ some cells) × (length cells ≡ p.sz)
  pub within : p.pos ≤ p.sz

-- A string at an address, with its NUL, in front of what is still free.
abbrev pub Holds : Pool → Address → Bytes → Type 0
Holds p (i, a) t =
    (cells : Bytes) × (front : Bytes) × (chunk_at i p.chunks ≡ some cells)
    × (length front ≡ a)
    × (take (a + length t + 1) cells ≡ front ++ (t ++ 0 ∷ []))
    × ((i < p.idx) ⊎ ((i ≡ p.idx) × (a + length t + 1 ≤ p.pos)))

abbrev Stored : Pool → Pool → Bytes → Address → Option (Pool × Address) → Type 0
Stored old p s place r =
    (q : Pool) × (r ≡ some (q, place))
    × IsValid q
    × Holds q place s
    × ((a : Address) (t : Bytes) → Holds old a t → Holds q a t)

-- A string of the last chunk stays where a later copy leaves its bytes.
Holds-later :
    (p q : Pool) (cells later : Bytes) (a : Address) (t : Bytes)
    → chunk_at p.idx p.chunks ≡ some cells
    → chunk_at q.idx q.chunks ≡ some later
    → q.idx ≡ p.idx
    → p.pos ≤ q.pos
    → ((m : ℕ) → m ≤ p.pos → take m later ≡ take m cells)
    → ((i : ℕ) → i < p.idx → chunk_at i q.chunks ≡ chunk_at i p.chunks)
    → Holds p a t
    → Holds q a t
Holds-later p q cells later (i, a) t here there same grown keeps others (c, f, at_i, l, e, inl h) =
    (c, f, others i h ∙ at_i, l, e, inl (omega (arith, same)))
Holds-later p q cells later (i, a) t here there same grown keeps others
      (c, f, at_i, l, e, inr (last, h)) =
    let mine : c ≡ cells = cc in
    (
      later,
      f,
      ap (λ n. chunk_at n q.chunks) (last ∙ sym same) ∙ there,
      l,
      keeps (a + length t + 1) h ∙ ap (take (a + length t + 1)) (sym mine) ∙ e,
      inr (last ∙ sym same, omega arith),
    )

store_lem :
    (p : Pool) (s : Bytes)
    → IsValid p
    → p.pos + (length s + 1) + 1 ≤ p.sz
    → Stored p p s (p.idx, p.pos) (store_string s (length s + 1) p)
unfolding store_string
store_lem p s v room =
    let (cells, here, size) = v.last in
    let n = p.pos + (length s + 1) in
    let width : length (s ++ 0 ∷ []) ≡ length s + 1 = length-append s (0 ∷ []) in
    let (buf, e1, size1, front1) =
      write_lem p cells p.pos (s ++ 0 ∷ []) here (omega (arith, width, size)) in
    let p1 : Pool = record p { chunks = put_chunk p.idx buf p.chunks } in
    let here1 = chunk_at-put p.chunks p.idx buf (omega (arith, v.count)) in
    let (later, e2, size2, front2) =
      write_lem p1 buf n (0 ∷ []) here1 (omega (arith, size, size1)) in
    let q : Pool = record p1 { chunks = put_chunk p.idx later p1.chunks; pos = n + 1 } in
    let count1 = length-put_chunk p.chunks p.idx buf in
    let there = chunk_at-put p1.chunks p.idx later (omega (arith, v.count, count1)) in
    let keeps : (m : ℕ) → m ≤ n → take m later ≡ take m buf =
      λ m h. kept m n 1 buf later (0 ∷ []) front2 h (omega (arith, size, size1)) in
    (
      q,
      some_bind _ e1 ∙ some_bind _ e2,
      record {
        count = length-put_chunk p1.chunks p.idx later ∙ count1 ∙ v.count;
        last = (later, there, size2 ∙ size1 ∙ size);
        within = omega arith;
      },
      (
        later,
        take p.pos cells,
        there,
        omega (arith, length-take p.pos cells, size, v.within),
        keeps (p.pos + length s + 1) (omega arith)
            ∙ ap (λ m. take m buf) (omega (arith, width))
            ∙ front1,
        inr (refl, omega arith),
      ),
      λ a t.
          Holds-later p q cells later a t here there refl (omega arith)
            (λ m h.
              keeps m (omega arith)
              ∙ kept m p.pos (length (s ++ 0 ∷ [])) cells buf (s ++ 0 ∷ []) front1 h
                  (omega (arith, size, v.within)))
            (λ i h.
              chunk_at-put_other p1.chunks i p.idx later h
              ∙ chunk_at-put_other p.chunks i p.idx buf h),
    )

grow-IsValid : (n : ℕ) (p : Pool) → IsValid p → IsValid (grow n p)
unfolding grow
grow-IsValid n p v = record {
  count =
      omega (arith, v.count, length-append p.chunks (replicate ((p.sz + n + 1) % 2 ^ 64) 0 ∷ []));
  last = (
    replicate ((p.sz + n + 1) % 2 ^ 64) 0,
    chunk_at-last p.chunks _ (p.idx + 1) v.count,
    length-replicate ((p.sz + n + 1) % 2 ^ 64) 0,
  );
  within = omega arith;
}

grow-Holds :
    (n : ℕ) (p : Pool) (a : Address) (t : Bytes) → IsValid p → Holds p a t → Holds (grow n p) a t
unfolding grow
grow-Holds n p (i, a) t v (c, f, at_i, l, e, place) = (
  c,
  f,
  chunk_at-append p.chunks _ i (chunk_at-below p.chunks i c at_i) ∙ at_i,
  l,
  e,
  inl (omega (arith, v.count, chunk_at-below p.chunks i c at_i)),
)

grow_room : (n : ℕ) (p : Pool) → p.sz + n + 1 < 2 ^ 64 → (grow n p).pos + n + 1 ≤ (grow n p).sz
unfolding grow
grow_room n p h = omega arith

Roomy : Pool → ℕ → Pool → Type 0
Roomy p n q =
    IsValid q × (q.pos + n + 1 ≤ q.sz) × ((a : Address) (t : Bytes) → Holds p a t → Holds q a t)

make_room_lem : (p : Pool) (n : ℕ) → IsValid p → p.sz + n + 1 < 2 ^ 64 → Roomy p n (make_room n p)
unfolding Roomy make_room
make_room_lem p n v small = elim (Bool-cases (leb (sub64 p.sz p.pos) n)) [
  | inl full ↦ rw full (grow-IsValid n p v, grow_room n p small, λ a t. grow-Holds n p a t v)
  | inr fits ↦
      let gap = sub64_lem p.sz p.pos v.within (omega arith) in
      let more = leb→gt (sub64 p.sz p.pos) n fits in rw fits (v, omega arith, λ a t h. h)
]

-- The length that pool_str_with_len counts, of a string whose length is given or that it measures.
counted :
    (s : Bytes) (len : ℕ)
    → (len ≡ 0) ⊎ (len ≡ length s)
    → (if len == 0 then length s + 1 else len + 1) ≡ length s + 1
counted s len (inl e) = ground arith
counted s len (inr e) = ground arith

-- From a valid pool whose next chunk would have a size that a size_t holds, pool_str_with_len copies a string,
-- whose length it measures or is given, without writing outside a chunk; the pool stays valid, the
-- string stands at the address that is returned, and all strings stay readable where they were.
pub pool_str_with_len-Holds :
    (p : Pool) (s : Bytes) (len : ℕ)
    → IsValid p
    → p.sz + length s + 2 < 2 ^ 64
    → (len ≡ 0) ⊎ (len ≡ length s)
    → (q : Pool) × (place : Address) × (pool_str_with_len p s len ≡ some (q, place))
      × IsValid q
      × Holds q place s
      × ((a : Address) (t : Bytes) → Holds p a t → Holds q a t)
unfolding pool_str_with_len Roomy
pool_str_with_len-Holds p s len v small measured =
    let m = make_room (length s + 1) p in
    let (valid, room, keeps) = make_room_lem p (length s + 1) v (omega arith) in
    let (q, e, valid', here, keeps') = store_lem m s valid room in
    (
      q,
      (m.idx, m.pos),
      ap (λ n. store_string s n (make_room n p)) (counted s len measured) ∙ e,
      valid',
      here,
      λ a t h. keeps' a t (keeps a t h),
    )

pub init_str_pool-IsValid : (sz : ℕ) → IsValid (init_str_pool sz)
unfolding init_str_pool
init_str_pool-IsValid sz = record {
  count = refl;
  last = (replicate sz 0, refl, length-replicate sz 0);
  within = omega arith;
}
