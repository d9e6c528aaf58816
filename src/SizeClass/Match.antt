-- ===== src/SizeClass/Match.antt =====
-- `match_size_class` of utility.rs finds the class that the linear search finds, at every size.
use rsmalloc.Common.{
  ℕ, zero, suc, ◌+◌, ◌-◌, ◌*◌, ◌/◌, ◌%◌, ◌≤◌, ◌<◌, ◌≡◌, ◌↔◌, refl, sym, true, none, some, List, [],
  ◌∷◌, ◌++◌, arith, ltb, if◌then◌else◌, length, get_or, All,
}
use mathlib.Core.Path.{subst}
use rsmalloc.Word.{leading_zeros}
use rsmalloc.Word.Log.{bit_length-pow}
use rsmalloc.SizeClass.{
  size_classes, scan, size_lut, large_size_lut, match_size_class, position, reference_match,
}

-- The linear search is the counting loop, where that loop stops inside the list.
position-scan :
    (l : List ℕ) (size : ℕ)
    → position l size ≡ (if ltb (scan l size) (length l) then some (scan l size) else none)
unfolding position scan
position-scan [] size = refl
position-scan (c ∷ cs) size = ground (arith, position-scan cs size)

scan-append :
    (xs ys : List ℕ) (size : ℕ)
    → All (λ c. c < size) xs
    → scan (xs ++ ys) size ≡ length xs + scan ys size
unfolding scan
scan-append [] ys size h = omega arith
scan-append (c ∷ cs) ys size h = ground (arith, scan-append cs ys size h.1)

-- Among multiples of 16 a size may be rounded up to one.
scan_round16 :
    (l : List ℕ) (size : ℕ)
    → All (λ c. c % 16 ≡ 0) l
    → 0 < size
    → scan l size ≡ scan l (((size - 1) / 16 + 1) * 16)
unfolding scan
scan_round16 [] size h p = refl
scan_round16 (c ∷ cs) size h p = ground (arith, scan_round16 cs size h.1 p)

scan_round4096 :
    (l : List ℕ) (size : ℕ)
    → All (λ c. c % 4096 ≡ 0) l
    → 0 < size
    → scan l size ≡ scan l (((size - 1) / 4096 + 1) * 4096)
unfolding scan
scan_round4096 [] size h p = refl
scan_round4096 (c ∷ cs) size h p = ground (arith, scan_round4096 cs size h.1 p)

-- A class that fits bounds the loop.
scan-le : (l : List ℕ) (size j : ℕ) → j < length l → size ≤ get_or l j 0 → scan l size ≤ j
unfolding scan
scan-le [] size j hj h = absurd (omega arith)
scan-le (c ∷ cs) size zero hj h = ground arith
scan-le (c ∷ cs) size (suc j) hj h = ground (arith, scan-le cs size j)

-- The classes up to 4096, those up to 32768, and the powers of two above.
abbrev low_classes : List ℕ
low_classes =
    16 ∷ 32 ∷ 48 ∷ 64 ∷ 80 ∷ 96 ∷ 128 ∷ 160 ∷ 192 ∷ 256 ∷ 320 ∷ 384 ∷ 512 ∷ 768 ∷ 1024 ∷ 1280 ∷ 1536
    ∷ 1792 ∷ 2048 ∷ 2560 ∷ 3072 ∷ 3840 ∷ 4096 ∷ []

abbrev mid_classes : List ℕ
mid_classes = 8192 ∷ 12288 ∷ 16384 ∷ 24576 ∷ 32768 ∷ []

abbrev top_classes : List ℕ
top_classes = 65536 ∷ 131072 ∷ 262144 ∷ 524288 ∷ 1048576 ∷ 2097152 ∷ []

split_low : size_classes ≡ low_classes ++ (mid_classes ++ top_classes)
split_low = refl

split_top : size_classes ≡ (low_classes ++ mid_classes) ++ top_classes
split_top = refl

reference_found :
    (size : ℕ) → 0 < size → size ≤ 2097152 → reference_match size ≡ some (scan size_classes size)
unfolding reference_match
reference_found size pos h =
    ground (arith, position-scan size_classes size, scan-le size_classes size 33 (omega arith) h)

small_match : (size : ℕ) → 0 < size → size_lut ((size - 1) / 16) ≡ scan size_classes size
unfolding size_lut
small_match size pos = sym (scan_round16 size_classes size (omega arith) pos)

large_table :
    (q : ℕ)
    → q < 7
    → get_or large_size_lut (suc q) 0 ≡ 23 + scan (mid_classes ++ top_classes) ((suc q + 1) * 4096)
unfolding scan
large_table zero h = refl
large_table (suc zero) h = refl
large_table (suc (suc zero)) h = refl
large_table (suc (suc (suc zero))) h = refl
large_table (suc (suc (suc (suc zero)))) h = refl
large_table (suc (suc (suc (suc (suc zero))))) h = refl
large_table (suc (suc (suc (suc (suc (suc zero)))))) h = refl
large_table (suc (suc (suc (suc (suc (suc (suc q))))))) h = absurd (omega arith)

medium_match :
    (size : ℕ)
    → 4096 < size
    → size ≤ 32768
    → get_or large_size_lut ((size - 1) / 4096) 0 ≡ scan size_classes size
medium_match size lo hi =
    let q : ℕ = (size - 1) / 4096 - 1 in
    let e : (size - 1) / 4096 ≡ suc q = omega arith in
    rw (split_low, scan-append low_classes (mid_classes ++ top_classes) size (omega arith))
      (rw (scan_round4096 (mid_classes ++ top_classes) size (omega arith) (omega arith))
        (rw e (large_table q (omega arith))))

scan_top : (size : ℕ) → 32768 < size → scan size_classes size ≡ 28 + scan top_classes size
scan_top size lo = scan-append (low_classes ++ mid_classes) top_classes size (omega arith)

top_match :
    (size : ℕ)
    → 32768 < size
    → size ≤ 2097152
    → 64 - leading_zeros (size - 1) + 12 ≡ 28 + scan top_classes size
unfolding leading_zeros scan
top_match size lo hi = ground (
  arith,
  bit_length-pow 64 15 (size - 1),
  bit_length-pow 64 16 (size - 1),
  bit_length-pow 64 17 (size - 1),
  bit_length-pow 64 18 (size - 1),
  bit_length-pow 64 19 (size - 1),
  bit_length-pow 64 20 (size - 1),
)

position_last : (l : List ℕ) (size : ℕ) → All (λ c. c < size) l → position l size ≡ none
unfolding position
position_last [] size h = refl
position_last (c ∷ cs) size h = ground (arith, position_last cs size h.1)

reference_none : (size : ℕ) → 2097152 < size → reference_match size ≡ none
unfolding reference_match
reference_none size h = ground (arith, position_last size_classes size (omega arith))

-- `match_size_class` returns what the linear search over the classes returns, at every size.
pub match_size_class-reference : (size : ℕ) → match_size_class size ≡ reference_match size
unfolding match_size_class
match_size_class-reference zero = unfold reference_match in refl
match_size_class-reference (suc n) =
    let size : ℕ = suc n in
    ground (
      arith,
      reference_found size,
      reference_none size,
      small_match size,
      medium_match size,
      top_match size,
      scan_top size,
    )

-- What a successful search says: the class found fits, and every class before it does not.
abbrev pub Fits : List ℕ → ℕ → ℕ → Type 0
Fits l size c = (c < length l) × (size ≤ get_or l c 0) × ((j : ℕ) → j < c → get_or l j 0 < size)

before-cons :
    {x size c : ℕ} (xs : List ℕ)
    → x < size
    → ((j : ℕ) → j < c → get_or xs j 0 < size)
    → (j : ℕ) → j < suc c
    → get_or (x ∷ xs) j 0 < size
before-cons xs h f zero lt = h
before-cons xs h f (suc j) lt = f j (omega arith)

position-Fits : (l : List ℕ) (size c : ℕ) → position l size ≡ some c → Fits l size c
unfolding position
position-Fits [] size c h = cc
position-Fits (x ∷ xs) size zero h = (omega arith, ground arith, λ j lt. absurd (omega arith))
position-Fits (x ∷ xs) size (suc c) h =
    let late : ltb x size ≡ true = ground arith in
    let rest : position xs size ≡ some c = ground arith in
    let (short, fits, before) = position-Fits xs size c rest in
    (omega arith, fits, before-cons xs (ground arith) before)

reference-Fits : (size c : ℕ) → reference_match size ≡ some c → Fits size_classes size c
unfolding reference_match
reference-Fits zero c h =
    let first : Fits size_classes 0 0 = (omega arith, omega arith, λ j lt. absurd (omega arith)) in
    let e : 0 ≡ c = ground arith in subst (λ t. Fits size_classes 0 t) e first
reference-Fits (suc n) c h = position-Fits size_classes (suc n) c (ground arith)

-- Where `match_size_class` finds a class, the class exists, its payload holds the size, and no
-- class before it does.
pub match_size_class-Fits : (size c : ℕ) → match_size_class size ≡ some c → Fits size_classes size c
match_size_class-Fits size c e = reference-Fits size c (rw (match_size_class-reference size) at e)

-- `match_size_class` finds no class exactly for the sizes above the largest class.
pub match_size_class-none : (size : ℕ) → (match_size_class size ≡ none) ↔ (2097152 < size)
match_size_class-none zero =
    rw (match_size_class-reference zero) (unfold reference_match in ground arith)
match_size_class-none (suc n) =
    rw (match_size_class-reference (suc n))
      (ground (arith, reference_found (suc n), reference_none (suc n)))
