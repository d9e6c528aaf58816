-- ===== src/Slab/Kept.antt =====
-- `push` and `push_tailed`: no block is lost or doubled, the loops end, and the hints and the
-- counts of the lists stay right.
use rsmalloc.Common.{
  ℕ, ◌+◌, ◌≤◌, ◌≡◌, refl, Bool, true, false, Option, some, List, [], ◌∷◌, ◌++◌, length,
  length-append, update, leb, ltb, ◌==◌, if◌then◌else◌, Bool-cases, inl, inr, arith,
}
use rsmalloc.Slab.{TransferCache, CpuCache, ClassCache, is_null}
use rsmalloc.Slab.Transfer.{transfer_push_batch, transfer_push_single}
use rsmalloc.Slab.Marked.{Marked, transfer_push_single-Marked}
use rsmalloc.Slab.Sent.{Gave, put-Gave, pushed_cpu, transfer_push_batch-Sent, commit_push-Sent}
use rsmalloc.Slab.Local.{Attempt, commit_push, push_tailed, push}

-- The usage of each CPU is the length of its list.
abbrev pub Counted : (ℕ → CpuCache) → Type 0
Counted cpu = (c : ℕ) → (cpu c).usage ≡ length (cpu c).list

abbrev pub Pushed : ClassCache → ClassCache → List ℕ → Type 0
Pushed s after blocks = Marked after × Counted after.cpu × Gave s.cpu after.cpu blocks

pub put-Counted :
    (old : ℕ → CpuCache) (i : ℕ) (c' : CpuCache)
    → Counted old
    → c'.usage ≡ length c'.list
    → Counted (update old i c')
put-Counted old i c' h e c = elim (Bool-cases (i == c)) [
  | inl same ↦ rw same e
  | inr other ↦ rw other (h c)
]

transfer_push_batch-Pushed :
    (s : ClassCache) (i : ℕ) (blocks : List ℕ)
    → Marked s
    → Counted s.cpu
    → Pushed s (transfer_push_batch s i blocks) blocks
unfolding transfer_push_batch
transfer_push_batch-Pushed s i blocks m k =
    let mail : TransferCache = record (s.cpu i).mail { list = blocks ++ (s.cpu i).mail.list } in
    let c' : CpuCache = record (s.cpu i) { mail = mail } in
    let same = pushed_cpu s i true (is_null (s.cpu i).mail.list) mail in
    let sent = transfer_push_batch-Sent s i blocks m in
    (sent.0, rw (transfer_push_batch, same) (put-Counted s.cpu i c' k (k i)), sent.1)

transfer_push_single-Pushed :
    (s : ClassCache) (i header : ℕ)
    → Marked s
    → Counted s.cpu
    → Pushed s (transfer_push_single s i header) (header ∷ [])
unfolding transfer_push_single
transfer_push_single-Pushed s i header m k =
    let mail : TransferCache = record (s.cpu i).mail { list = header ∷ (s.cpu i).mail.list } in
    let c' : CpuCache = record (s.cpu i) { mail = mail } in
    let same = pushed_cpu s i true (is_null (s.cpu i).mail.list) mail in
    (
      transfer_push_single-Marked s i header m,
      rw (transfer_push_single, same) (put-Counted s.cpu i c' k (k i)),
      rw (transfer_push_single, same) (put-Gave s.cpu i c' (header ∷ []) (λ x. omega arith)),
    )

commit_push-Pushed :
    (s : ClassCache) (i : ℕ) (blocks : List ℕ)
    → Marked s
    → Counted s.cpu
    → Pushed s (commit_push s i blocks (length blocks)) blocks
commit_push-Pushed s i blocks m k =
    let c = s.cpu i in
    let c' : CpuCache = record c { list = blocks ++ c.list; usage = c.usage + length blocks } in
    let sent = commit_push-Sent s i blocks (length blocks) m in
    (sent.0, put-Counted s.cpu i c' k (omega (arith, k i, length-append blocks c.list)), sent.1)

if_Pushed :
    (b : Bool) (s t u : ClassCache) (blocks : List ℕ)
    → Pushed s t blocks
    → Pushed s u blocks
    → Pushed s (if b then t else u) blocks
if_Pushed true s t u blocks p q = p
if_Pushed false s t u blocks p q = q

-- With hints and counts as they should be, and the batch's size as `batch_size`: `push_tailed` puts the
-- blocks into the lists of one CPU, whether the sequence commits or not, and hints and counts stay right.
pub push_tailed-Pushed :
    (high : ℕ) (s : ClassCache) (a : Attempt) (blocks : List ℕ)
    → Marked s
    → Counted s.cpu
    → Pushed s (push_tailed high s a blocks (length blocks)) blocks
unfolding push_tailed
push_tailed-Pushed high s a blocks m k =
    let i = a.current_cpu in
    let sent = transfer_push_batch-Pushed s i blocks m k in
    let committed = commit_push s i blocks (length blocks) in
    let other = transfer_push_batch s i blocks in
    if_Pushed (leb high (s.cpu i).usage) s other (if a.commits then committed else other) blocks
      sent (if_Pushed a.commits s committed other blocks (commit_push-Pushed s i blocks m k) sent)

abbrev pub Ends : ClassCache → Option ClassCache → List ℕ → Type 0
Ends s o blocks = (after : ClassCache) × (o ≡ some after) × Pushed s after blocks

if_Ends :
    (b : Bool) (s : ClassCache) (o o' : Option ClassCache) (blocks : List ℕ)
    → (b ≡ true → Ends s o blocks)
    → (b ≡ false → Ends s o' blocks)
    → Ends s (if b then o else o') blocks
if_Ends true s o o' blocks p q = p refl
if_Ends false s o o' blocks p q = q refl

-- With hints and counts as they should be, and with rounds for the five that the loop runs at most:
-- `push` ends, the block is in the lists of one CPU, and hints and counts stay right.
pub push-Ends :
    (high : ℕ) (s : ClassCache) (rounds : List Attempt) (loop_count header : ℕ)
    → Marked s
    → Counted s.cpu
    → 5 ≤ loop_count + length rounds
    → loop_count ≤ 4
    → Ends s (push high s rounds loop_count header) (header ∷ [])
unfolding push
push-Ends high s [] loop_count header m k enough few = absurd (omega arith)
push-Ends high s (a ∷ rest) loop_count header m k enough few =
    let i = a.current_cpu in
    let sent = transfer_push_single-Pushed s i header m k in
    let single = transfer_push_single s i header in
    let committed = commit_push s i (header ∷ []) 1 in
    let later = push high s rest (loop_count + 1) header in
    let tired = if ltb 3 loop_count then some single else later in
    let tried = if a.commits then some committed else tired in
    if_Ends (leb high (s.cpu i).usage) s (some single) tried (header ∷ [])
      (λ _. (single, refl, sent))
      (λ _.
        if_Ends a.commits s (some committed) tired (header ∷ [])
          (λ _. (committed, refl, commit_push-Pushed s i (header ∷ []) m k))
          (λ _.
            if_Ends (ltb 3 loop_count) s (some single) later (header ∷ [])
              (λ _. (single, refl, sent))
              (λ e.
                push-Ends high s rest (loop_count + 1) header m k (omega arith)
                  (ground (arith, e)))))
