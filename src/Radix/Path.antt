-- ===== src/Radix/Path.antt =====
-- The path of a chunk through the tables: `split`, `get` and a change of one leaf.
use rsmalloc.Common.{
  ℕ, ◌/◌, ◌%◌, ◌^◌, ◌<◌, ◌≡◌, true, false, ◌&&◌, arith, ltb, ◌==◌, update, if◌then◌else◌,
  one-le-pow, Bool-cases, Option-cases, inl, inr, none, some,
}
use rsmalloc.Common.Bits.{digit-lt, digit-zero, bit_and_low_mask, bit_and-pow}
use rsmalloc.Radix.{
  Radix, Table, Leaf, zero_leaf, zero_table, split, get_or_alloc, with_leaf, find_leaf, get,
  max_chunks,
}
use rsmalloc.Radix.Leaf.{leaf_bit}

-- The leaf on a path, zero where a node is missing.
abbrev pub leaf_of : Radix → (i0 i1 i2 : ℕ) → Leaf
unfolding get_or_alloc
leaf_of l0 i0 i1 i2 =
    get_or_alloc (get_or_alloc (get_or_alloc l0 i0 zero_table) i1 zero_table) i2 zero_leaf

-- The leaf of a chunk, by the number of the leaf.
abbrev pub leaf_at : Radix → ℕ → Leaf
leaf_at l0 n = leaf_of l0 (n / 2 ^ 24 % 2 ^ 8) (n / 2 ^ 12 % 2 ^ 12) (n % 2 ^ 12)

-- 1 if the chunk is marked, else 0.
unfoldable pub marked : Radix → ℕ → ℕ
marked l0 chunk = leaf_bit (leaf_at l0 (chunk / 4096)) (chunk % 4096)

pub split-path :
    (idx : ℕ)
    → split idx
      ≡ (idx / 4096 / 2 ^ 24 % 2 ^ 8, idx / 4096 / 2 ^ 12 % 2 ^ 12, idx / 4096 % 2 ^ 12, idx % 4096)
unfolding split
split-path idx =
    let e0 : idx / 2 ^ 36 ≡ idx / 4096 / 2 ^ 24 = omega arith in
    let e1 : idx / 2 ^ 24 ≡ idx / 4096 / 2 ^ 12 = omega arith in
    rw (
      bit_and_low_mask 8 (idx / 2 ^ 36),
      bit_and_low_mask 12 (idx / 2 ^ 24),
      bit_and_low_mask 12 (idx / 2 ^ 12),
      bit_and_low_mask 12 idx,
      e0,
      e1,
    )

get_or_alloc-update :
    {A : Type 0} (table : Table A) (i j : ℕ) (node fresh : A)
    → get_or_alloc (update table i (some node)) j fresh
      ≡ (if i == j then node else get_or_alloc table j fresh)
unfolding get_or_alloc
get_or_alloc-update table i j node fresh = elim (Bool-cases (i == j)) [
  | inl e ↦ rw (get_or_alloc, e)
  | inr e ↦ rw (get_or_alloc, e)
]

-- A change of one leaf changes the leaf on that path and no other.
pub leaf_of-with_leaf :
    (l0 : Radix) (i0 i1 i2 j0 j1 j2 : ℕ) (f : Leaf → Leaf)
    → leaf_of (with_leaf l0 i0 i1 i2 f) j0 j1 j2 ≡ (
        if (i0 == j0) && (i1 == j1) && (i2 == j2)
        then f (leaf_of l0 i0 i1 i2)
        else leaf_of l0 j0 j1 j2)
unfolding with_leaf leaf_of
leaf_of-with_leaf l0 i0 i1 i2 j0 j1 j2 f =
    let l1 : Table (Table Leaf) = get_or_alloc l0 i0 zero_table in
    let l2 : Table Leaf = get_or_alloc l1 i1 zero_table in
    let l3 : Leaf = get_or_alloc l2 i2 zero_leaf in
    let l2' : Table Leaf = update l2 i2 (some (f l3)) in
    let l1' : Table (Table Leaf) = update l1 i1 (some l2') in
    let at0 = get_or_alloc-update l0 i0 j0 l1' zero_table in
    let at1 = get_or_alloc-update l1 i1 j1 l2' zero_table in
    let at2 = get_or_alloc-update l2 i2 j2 (f l3) zero_leaf in
    elim (Bool-cases (i0 == j0)) [
      | inr c0 ↦ rw (at0, c0)
      | inl c0 ↦
          let e0 : i0 ≡ j0 = ground arith in
          elim (Bool-cases (i1 == j1)) [
            | inr c1 ↦ rw (at0, c0, at1, c1, e0)
            | inl c1 ↦
                let e1 : i1 ≡ j1 = ground arith in
                elim (Bool-cases (i2 == j2)) [
                  | inr c2 ↦ rw (at0, c0, at1, c1, at2, c2, e0, e1)
                  | inl c2 ↦ rw (at0, c0, at1, c1, at2, c2)
                ]
          ]
    ]

pub leaf_at-with_leaf :
    (l0 : Radix) (n k : ℕ) (f : Leaf → Leaf)
    → n < 2 ^ 32
    → k < 2 ^ 32
    → leaf_at (with_leaf l0 (n / 2 ^ 24 % 2 ^ 8) (n / 2 ^ 12 % 2 ^ 12) (n % 2 ^ 12) f) k
      ≡ (if n == k then f (leaf_at l0 n) else leaf_at l0 k)
leaf_at-with_leaf l0 n k f hn hk =
    rw
      (leaf_of-with_leaf l0 (n / 2 ^ 24 % 2 ^ 8) (n / 2 ^ 12 % 2 ^ 12) (n % 2 ^ 12)
        (k / 2 ^ 24 % 2 ^ 8) (k / 2 ^ 12 % 2 ^ 12) (k % 2 ^ 12) f)
      (elim (Bool-cases (n == k)) [
        | inl same ↦
            let whole : ((n / 2 ^ 24 % 2 ^ 8 == k / 2 ^ 24 % 2 ^ 8)
                  && (n / 2 ^ 12 % 2 ^ 12 == k / 2 ^ 12 % 2 ^ 12)
                  && (n % 2 ^ 12 == k % 2 ^ 12))
                ≡ true =
              ground arith in
            rw (same, whole)
        | inr other ↦
            let apart : ((n / 2 ^ 24 % 2 ^ 8 == k / 2 ^ 24 % 2 ^ 8)
                  && (n / 2 ^ 12 % 2 ^ 12 == k / 2 ^ 12 % 2 ^ 12)
                  && (n % 2 ^ 12 == k % 2 ^ 12))
                ≡ false =
              ground arith in
            rw (other, apart)
      ])

module _ (l0 : Radix) (i0 i1 i2 : ℕ) where
  leaf_of-none : find_leaf l0 i0 i1 i2 ≡ none → leaf_of l0 i0 i1 i2 ≡ zero_leaf
  unfolding find_leaf get_or_alloc
  leaf_of-none h = elim (Option-cases (l0 i0)) [
    | inl e ↦ rw (get_or_alloc, e)
    | inr (l1, e) ↦ elim (Option-cases (l1 i1)) [
      | inl e' ↦ rw (get_or_alloc, e, e')
      | inr (l2, e') ↦ rw (get_or_alloc, e, e', rw (e, e') at h)
    ]
  ]

  leaf_of-some : (l3 : Leaf) → find_leaf l0 i0 i1 i2 ≡ some l3 → leaf_of l0 i0 i1 i2 ≡ l3
  unfolding find_leaf get_or_alloc
  leaf_of-some l3 h = elim (Option-cases (l0 i0)) [
    | inl e ↦ let no : none ≡ some l3 = rw e at h in cc
    | inr (l1, e) ↦ elim (Option-cases (l1 i1)) [
      | inl e' ↦ let no : none ≡ some l3 = rw (e, e') at h in cc
      | inr (l2, e') ↦ rw (get_or_alloc, e, e', rw (e, e') at h)
    ]
  ]

-- `get` reads the mark of a chunk, and no chunk from `RADIX_MAX_CHUNKS` on is marked.
pub get-marked :
    (l0 : Radix) (chunk : ℕ) → get l0 chunk ≡ (ltb chunk max_chunks && (marked l0 chunk == 1))
unfolding get marked
get-marked l0 chunk =
    let n : ℕ = chunk / 4096 in
    let k : ℕ = chunk % 4096 in
    let i0 : ℕ = n / 2 ^ 24 % 2 ^ 8 in
    let i1 : ℕ = n / 2 ^ 12 % 2 ^ 12 in
    let i2 : ℕ = n % 2 ^ 12 in
    let low : (split chunk).3 ≡ k = rw (split-path chunk) in
    rw (split-path chunk) (elim (Option-cases (find_leaf l0 i0 i1 i2)) [
      | inl e ↦ rw (e, leaf_of-none l0 i0 i1 i2 e) (ground (arith, digit-zero (k % 64)))
      | inr (l3, e) ↦
          rw (e, leaf_of-some l0 i0 i1 i2 l3 e)
            (ground (
              arith,
              low,
              bit_and-pow (l3 (k / 64)) (k % 64),
              digit-lt (l3 (k / 64)) (k % 64),
              one-le-pow (k % 64) 2,
            ))
    ])
