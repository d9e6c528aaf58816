-- ===== src/Slab/Marked.antt =====
-- The hints: a CPU with blocks on its transfer list is marked, whatever operation ran.
use rsmalloc.Common.{
  ℕ, ◌≡◌, refl, ap, Bool, true, false, List, [], ◌∷◌, ◌++◌, ◌==◌, if◌then◌else◌, Bool-cases, inl,
  inr, arith,
}
use rsmalloc.Slab.{TransferCache, ClassCache, is_null, set_hint, set_mail, clear_hint}
use rsmalloc.Slab.Transfer.{
  transfer_push_batch, transfer_push_single, transfer_push_single_trimmed, pop_single, walk,
  clear_if_null, pop_batch,
}

-- Every CPU with blocks on its transfer list is marked.
abbrev pub Marked : ClassCache → Type 0
Marked s = (c : ℕ) → is_null (s.cpu c).mail.list ≡ false → s.nonempty c ≡ true

set_mail-Marked :
    (s : ClassCache) (i : ℕ) (mail : TransferCache)
    → Marked s
    → (is_null (s.cpu i).mail.list ≡ false)
    → Marked (set_mail s i mail)
set_mail-Marked s i mail h e c = elim (Bool-cases (i == c)) [
  | inl same ↦
      let here : i ≡ c = ground (arith, same) in
      let marked : s.nonempty i ≡ true = h i e in λ _. rw (← here) marked
  | inr other ↦ rw other (h c)
]

pub clear_hint-Marked : (s : ClassCache) (i : ℕ) → Marked s → Marked (clear_hint s i)
clear_hint-Marked s i h c = elim (Bool-cases (i == c)) [
  | inl same ↦
      let here : i ≡ c = ground (arith, same) in
      rw (same, here) (λ (e : is_null (s.cpu c).mail.list ≡ false). rw e refl)
  | inr other ↦ rw other (h c)
]

set_hint-Marked : (s : ClassCache) (i : ℕ) → Marked s → Marked (set_hint s i true)
set_hint-Marked s i h c = elim (Bool-cases (i == c)) [
  | inl same ↦ rw same (λ _. refl)
  | inr other ↦ rw other (h c)
]

-- A push marks the CPU, or finds it marked.
pushed-Marked :
    (s : ClassCache) (i : ℕ) (mail : TransferCache) (was_null : Bool)
    → Marked s
    → ((was_null ≡ false) → s.nonempty i ≡ true)
    → Marked (if was_null then set_hint (set_mail s i mail) i true else set_mail s i mail)
pushed-Marked s i mail true h e c = elim (Bool-cases (i == c)) [
  | inl same ↦ rw same (λ _. refl)
  | inr other ↦ rw other (h c)
]
pushed-Marked s i mail false h e c = elim (Bool-cases (i == c)) [
  | inl same ↦
      let here : i ≡ c = ground (arith, same) in
      let marked : s.nonempty i ≡ true = e refl in λ _. rw (← here) marked
  | inr other ↦ rw other (h c)
]

pub transfer_push_batch-Marked :
    (s : ClassCache) (i : ℕ) (blocks : List ℕ) → Marked s → Marked (transfer_push_batch s i blocks)
unfolding transfer_push_batch
transfer_push_batch-Marked s i blocks h =
    pushed-Marked s i (record (s.cpu i).mail { list = blocks ++ (s.cpu i).mail.list })
      (is_null (s.cpu i).mail.list) h (h i)

pub transfer_push_single-Marked :
    (s : ClassCache) (i header : ℕ) → Marked s → Marked (transfer_push_single s i header)
unfolding transfer_push_single
transfer_push_single-Marked s i header h =
    pushed-Marked s i (record (s.cpu i).mail { list = header ∷ (s.cpu i).mail.list })
      (is_null (s.cpu i).mail.list) h (h i)

-- New transfer lists with no more blocks on the normal one than there were.
pub kept-Marked :
    (s : ClassCache) (i : ℕ) (mail : TransferCache)
    → Marked s
    → (is_null mail.list ≡ false → is_null (s.cpu i).mail.list ≡ false)
    → Marked (set_mail s i mail)
kept-Marked s i mail h e c = elim (Bool-cases (i == c)) [
  | inl same ↦
      let here : i ≡ c = ground (arith, same) in
      rw (same, ← here) (λ (f : is_null mail.list ≡ false). h i (e f))
  | inr other ↦ rw other (h c)
]

pub transfer_push_single_trimmed-Marked :
    (s : ClassCache) (i header : ℕ) → Marked s → Marked (transfer_push_single_trimmed s i header)
unfolding transfer_push_single_trimmed
transfer_push_single_trimmed-Marked s i header h =
    let mail : TransferCache = record (s.cpu i).mail {
      trimmed = header ∷ (s.cpu i).mail.trimmed;
    } in
    let kept = kept-Marked s i mail h (λ e. e) in
    elim (Bool-cases (is_null (s.cpu i).mail.trimmed)) [
      | inl e ↦ rw (transfer_push_single_trimmed, e) (set_hint-Marked (set_mail s i mail) i kept)
      | inr e ↦ rw (transfer_push_single_trimmed, e) kept
    ]

clear_if_null-Marked :
    (s : ClassCache) (i : ℕ) (left : List ℕ) → Marked s → Marked (clear_if_null s i left)
clear_if_null-Marked s i [] h = clear_hint-Marked s i h
clear_if_null-Marked s i (x ∷ xs) h = h

pub pop_single-Marked :
    (s : ClassCache) (i : ℕ) (list trimmed : List ℕ)
    → Marked s
    → (s.cpu i).mail.list ≡ list
    → Marked (pop_single s i list trimmed).1
pop_single-Marked s i (head ∷ next) trimmed h e =
    kept-Marked s i (record { list = next; trimmed = trimmed }) h (λ _. ap is_null e)
pop_single-Marked s i [] (head ∷ next) h e =
    kept-Marked s i (record { list = []; trimmed = next }) h (λ f. cc)
pop_single-Marked s i [] [] h e = clear_hint-Marked s i h

pub pop_batch-Marked :
    (s : ClassCache) (i batch_size : ℕ) (list trimmed : List ℕ)
    → Marked s
    → (s.cpu i).mail.list ≡ list
    → Marked (pop_batch s i batch_size list trimmed).1
pop_batch-Marked s i batch_size (head ∷ next) trimmed h e =
    let left = (walk batch_size 1 next).1 in
    let mail : TransferCache = record { list = left; trimmed = trimmed } in
    clear_if_null-Marked (set_mail s i mail) i left (kept-Marked s i mail h (λ _. ap is_null e))
pop_batch-Marked s i batch_size [] (head ∷ next) h e =
    let left = (walk batch_size 1 next).1 in
    let mail : TransferCache = record { list = []; trimmed = left } in
    clear_if_null-Marked (set_mail s i mail) i left (kept-Marked s i mail h (λ f. cc))
pop_batch-Marked s i batch_size [] [] h e = clear_hint-Marked s i h
