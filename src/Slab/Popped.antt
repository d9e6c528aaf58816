-- ===== src/Slab/Popped.antt =====
-- `pop`: a block of one CPU, or null where the CPU's list is empty; it goes on only while all sequences
-- abort.
use rsmalloc.Common.{
  ℕ, ◌+◌, ◌-◌, ◌≡◌, refl, ap, Bool, true, false, ◌||◌, Option, none, some, List, [], ◌∷◌, length,
  copies, update, ◌==◌, if◌then◌else◌, if_cases, Bool-cases, inl, inr, arith,
}
use rsmalloc.Slab.{TransferCache, CpuCache, ClassCache, is_null, clear_hint}
use rsmalloc.Slab.Transfer.{pop_single, transfer_pop_single}
use rsmalloc.Slab.Marked.{Marked, pop_single-Marked}
use rsmalloc.Slab.Batch.{held, Took}
use rsmalloc.Slab.Kept.{Counted, put-Counted}
use rsmalloc.Slab.Local.{Attempt, set_cpu, pop_head, found_or, pop}

abbrev pub any_commits : List Attempt → Bool
any_commits [] = false
any_commits (a ∷ rest) = a.commits || any_commits rest

-- No result while all sequences abort; null for an empty list; else a block of one CPU.
abbrev pub PopResult : ClassCache → List Attempt → Option (Option ℕ × ClassCache) → Type 0
PopResult s rounds none = any_commits rounds ≡ false
PopResult s rounds (some (none, after)) =
    Marked after
    × Counted after.cpu
    × ((x c : ℕ) → held x (after.cpu c) ≡ held x (s.cpu c))
    × ((i : ℕ) × (is_null (s.cpu i).list ≡ true))
PopResult s rounds (some (some header, after)) =
    Marked after × Counted after.cpu × Took s.cpu after.cpu (header ∷ [])

-- A CPU that lost a block from its lists.
take-Took :
    (old : ℕ → CpuCache) (i : ℕ) (c' : CpuCache) (blocks : List ℕ)
    → ((x : ℕ) → held x (old i) ≡ held x c' + copies x blocks)
    → Took old (update old i c') blocks
take-Took old i c' blocks e = (
  i,
  λ x c. elim (Bool-cases (i == c)) [
    | inl same ↦ let here : i ≡ c = ground (arith, same) in rw (same, ← here) (e x)
    | inr other ↦ rw other (omega arith)
  ],
)

-- A list changes, the transfer lists do not.
list-Marked :
    (s : ClassCache) (i : ℕ) (c' : CpuCache)
    → Marked s
    → c'.mail ≡ (s.cpu i).mail
    → Marked (set_cpu s i c')
list-Marked s i c' m e c = elim (Bool-cases (i == c)) [
  | inl same ↦ let here : i ≡ c = ground (arith, same) in rw (same, e, ← here) (m i)
  | inr other ↦ rw other (m c)
]

popped_list :
    (s : ClassCache) (i : ℕ) (rounds : List Attempt) (list : List ℕ)
    → Marked s
    → Counted s.cpu
    → (s.cpu i).list ≡ list
    → PopResult s rounds
        (some ((pop_head (s.cpu i) list).0, set_cpu s i (pop_head (s.cpu i) list).1))
popped_list s i rounds [] m k e = (
  list-Marked s i (s.cpu i) m refl,
  put-Counted s.cpu i (s.cpu i) k (k i),
  λ x c. elim (Bool-cases (i == c)) [
    | inl same ↦ let here : i ≡ c = ground (arith, same) in rw (same, here) refl
    | inr other ↦ rw other refl
  ],
  (i, ap is_null e),
)
popped_list s i rounds (head ∷ next) m k e =
    let c' : CpuCache = record (s.cpu i) { list = next; usage = (s.cpu i).usage - 1 } in
    (
      list-Marked s i c' m refl,
      put-Counted s.cpu i c' k (omega (arith, k i, ap length e)),
      take-Took s.cpu i c' (head ∷ []) (λ x. omega (arith, ap (copies x) e)),
    )

single_mail :
    (s : ClassCache) (i : ℕ) (list trimmed : List ℕ) (rounds : List Attempt)
    (later : Option (Option ℕ × ClassCache))
    → Marked s
    → Counted s.cpu
    → (s.cpu i).mail.list ≡ list
    → (s.cpu i).mail.trimmed ≡ trimmed
    → PopResult (pop_single s i list trimmed).1 rounds later
    → PopResult s rounds
        (found_or (pop_single s i list trimmed).0 (pop_single s i list trimmed).1 later)
single_mail s i (head ∷ next) trimmed rounds later m k e f g =
    let mail : TransferCache = record { list = next; trimmed = trimmed } in
    let c' : CpuCache = record (s.cpu i) { mail = mail } in
    (
      pop_single-Marked s i (head ∷ next) trimmed m e,
      put-Counted s.cpu i c' k (k i),
      take-Took s.cpu i c' (head ∷ []) (λ x. omega (arith, ap (copies x) e, ap (copies x) f)),
    )
single_mail s i [] (head ∷ next) rounds later m k e f g =
    let mail : TransferCache = record { list = []; trimmed = next } in
    let c' : CpuCache = record (s.cpu i) { mail = mail } in
    (
      pop_single-Marked s i [] (head ∷ next) m e,
      put-Counted s.cpu i c' k (k i),
      take-Took s.cpu i c' (head ∷ []) (λ x. omega (arith, ap (copies x) e, ap (copies x) f)),
    )
single_mail s i [] [] rounds later m k e f g = same_cpu later g
  where
    same_cpu :
        (r : Option (Option ℕ × ClassCache))
        → PopResult (clear_hint s i) rounds r
        → PopResult s rounds r
    same_cpu none h = h
    same_cpu (some (none, after)) h = h
    same_cpu (some (some header, after)) h = h

pop_single-Counted :
    (s : ClassCache) (i : ℕ) (list trimmed : List ℕ)
    → Counted s.cpu
    → Counted (pop_single s i list trimmed).1.cpu
pop_single-Counted s i (head ∷ next) trimmed k =
    put-Counted s.cpu i (record (s.cpu i) { mail = record { list = next; trimmed = trimmed } }) k
      (k i)
pop_single-Counted s i [] (head ∷ next) k =
    put-Counted s.cpu i (record (s.cpu i) { mail = record { list = []; trimmed = next } }) k (k i)
pop_single-Counted s i [] [] k = k

PopResult-later :
    (s : ClassCache) (a : Attempt) (rest : List Attempt) (r : Option (Option ℕ × ClassCache))
    → a.commits ≡ false
    → PopResult s rest r
    → PopResult s (a ∷ rest) r
PopResult-later s a rest none e h = rw e h
PopResult-later s a rest (some (none, after)) e h = h
PopResult-later s a rest (some (some header, after)) e h = h

-- With hints and counts as they should be: `pop` has no result only while all sequences abort. A null
-- result leaves every block where it is, and the list of some CPU is empty; a block comes from the lists
-- of one CPU. Hints and counts stay right.
pub pop-PopResult :
    (s : ClassCache) (rounds : List Attempt) (loop_count : ℕ)
    → Marked s
    → Counted s.cpu
    → PopResult s rounds (pop s rounds loop_count)
unfolding pop transfer_pop_single
pop-PopResult s [] loop_count m k = refl
pop-PopResult s (a ∷ rest) loop_count m k =
    let i = a.current_cpu in
    let mail = (s.cpu i).mail in
    let (found, s') = pop_single s i mail.list mail.trimmed in
    let retry = pop s rest (loop_count + 1) in
    let after_mail = pop s' rest 1 in
    let head = pop_head (s.cpu i) (s.cpu i).list in
    let waited = if loop_count == 3 then found_or found s' after_mail else retry in
    if_cases (PopResult s (a ∷ rest)) a.commits (some (head.0, set_cpu s i head.1)) waited
      (λ _. popped_list s i (a ∷ rest) (s.cpu i).list m k refl)
      (λ aborts. PopResult-later s a rest waited aborts (
        if_cases (PopResult s rest) (loop_count == 3) (found_or found s' after_mail) retry
          (λ _. single_mail s i mail.list mail.trimmed rest after_mail m k refl refl (
            pop-PopResult s' rest 1 (pop_single-Marked s i mail.list mail.trimmed m refl)
              (pop_single-Counted s i mail.list mail.trimmed k)))
          (λ _. pop-PopResult s rest (loop_count + 1) m k)))
