-- ===== src/Slab/Searched.antt =====
-- What a search of rseq_core/slab_cache.rs for blocks of another CPU leaves, whether it finds some or not.
use rsmalloc.Common.{
  ℕ, ◌≡◌, ◌⊎◌, ◌∙◌, Bool, true, false, Option, none, some, List, ◌==◌, Bool-cases, inl, inr, arith,
}
use mathlib.Core.Path.{subst}
use rsmalloc.Slab.{CpuCache, ClassCache, is_null}
use rsmalloc.Slab.Marked.{Marked}
use rsmalloc.Slab.Batch.{Took, Popped}
use rsmalloc.Slab.Steal.{or_else}

-- The normal list of a CPU is empty, and, if the CPU is marked, the trimmed one.
abbrev pub Dry : (ℕ → CpuCache) → (nonempty : ℕ → Bool) → ℕ → Type 0
Dry cpu nonempty c =
    (is_null (cpu c).mail.list ≡ true) × (nonempty c ≡ true → is_null (cpu c).mail.trimmed ≡ true)

-- Of the marks, only such of CPUs with no trimmed blocks were cleared.
abbrev pub Hints : (ℕ → CpuCache) → (old new : ℕ → Bool) → Type 0
Hints cpu old new = (c : ℕ) → old c ≡ true → (new c ≡ true) ⊎ (is_null (cpu c).mail.trimmed ≡ true)

-- The blocks come from one CPU; or there are none, no list changed, and the CPUs in `P` are dry.
abbrev pub Result :
    (ℕ → Type 0) → (ℕ → CpuCache) → (nonempty : ℕ → Bool) → Option (List ℕ) × ClassCache → Type 0
Result P old nonempty (none, s) =
    Marked s × (s.cpu ≡ old) × Hints old nonempty s.nonempty × ((c : ℕ) → P c → Dry old nonempty c)
Result P old nonempty (some blocks, s) = Marked s × (is_null blocks ≡ false) × Took old s.cpu blocks

pub Dry-back :
    (old cpu : ℕ → CpuCache) (marks nonempty : ℕ → Bool) (c : ℕ)
    → cpu ≡ old
    → Hints old marks nonempty
    → Dry cpu nonempty c
    → Dry old marks c
Dry-back old cpu marks nonempty c same hints (list, trimmed) = (
  rw same at list,
  λ marked. elim (hints c marked) [
    | inl still ↦ (let empty = trimmed still in rw same at empty)
    | inr empty ↦ empty
  ],
)

Hints-trans :
    (old cpu : ℕ → CpuCache) (marks nonempty after : ℕ → Bool)
    → cpu ≡ old
    → Hints old marks nonempty
    → Hints cpu nonempty after
    → Hints old marks after
Hints-trans old cpu marks nonempty after same first second c marked = elim (first c marked) [
  | inl still ↦ elim (second c still) [ inl kept ↦ inl kept | inr empty ↦ inr (rw same at empty) ]
  | inr empty ↦ inr empty
]

pub Result-or_else :
    (P Q R : ℕ → Type 0) (old : ℕ → CpuCache) (nonempty : ℕ → Bool)
    (r : Option (List ℕ) × ClassCache) (next : ClassCache → Option (List ℕ) × ClassCache)
    → ((c : ℕ) → R c → P c ⊎ Q c)
    → Result P old nonempty r
    → ((s : ClassCache) → Marked s → Result Q s.cpu s.nonempty (next s))
    → Result R old nonempty (or_else r next)
Result-or_else P Q R old nonempty (some blocks, s) next cover h k = h
Result-or_else P Q R old nonempty (none, s) next cover (marked, same, hints, dry) k =
    go (next s) (k s marked)
  where
    go : (r : Option (List ℕ) × ClassCache) → Result Q s.cpu s.nonempty r → Result R old nonempty r
    go (some blocks, s') (m, some_block, took) =
        (m, some_block, subst (λ cpu. Took cpu s'.cpu blocks) same took)
    go (none, s') (m, same', hints', dry') = (
      m,
      same' ∙ same,
      Hints-trans old s.cpu nonempty s.nonempty s'.nonempty same hints hints',
      λ c rc. elim (cover c rc) [
        | inl pc ↦ dry c pc
        | inr qc ↦ Dry-back old s.cpu nonempty s.nonempty c same hints (dry' c qc)
      ],
    )

pub Result-imp :
    (P R : ℕ → Type 0) (old : ℕ → CpuCache) (nonempty : ℕ → Bool) (r : Option (List ℕ) × ClassCache)
    → ((c : ℕ) → R c → P c)
    → Result P old nonempty r
    → Result R old nonempty r
Result-imp P R old nonempty (some blocks, s) f h = h
Result-imp P R old nonempty (none, s) f (marked, same, hints, dry) =
    (marked, same, hints, λ c rc. dry c (f c rc))

-- A single CPU where a pop finds nothing.
pub Popped-Result :
    (s : ClassCache) (i : ℕ) (r : Option (List ℕ) × ClassCache)
    → Popped s i r
    → Result (λ c. i ≡ c) s.cpu s.nonempty r
Popped-Result s i (some blocks, after) popped = popped
Popped-Result s i (none, after) (marked, same, list, trimmed, others) = (
  marked,
  same,
  λ c was. elim (Bool-cases (i == c)) [
    | inl hit ↦ let here : i ≡ c = ground (arith, hit) in inr (rw (← here) trimmed)
    | inr other ↦ inl (rw (others c other) was)
  ],
  λ c here. rw (← here) (list, λ _. trimmed),
)

-- A CPU that is not marked is dry.
pub unmarked-Dry :
    (s : ClassCache) (c : ℕ) → Marked s → s.nonempty c ≡ false → Dry s.cpu s.nonempty c
unmarked-Dry s c m clear = (
  elim (Bool-cases (is_null (s.cpu c).mail.list)) [
    | inl empty ↦ empty
    | inr some_left ↦ let set = m c some_left in absurd (ground (arith, set, clear))
  ],
  λ marked. absurd (ground (arith, marked, clear)),
)
