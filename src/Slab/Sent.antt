-- ===== src/Slab/Sent.antt =====
-- Batches that `push_tailed` of rseq_core/slab_cache.rs puts into the lists of a CPU.
use rsmalloc.Common.{
  ℕ, ◌+◌, ◌≡◌, refl, Bool, true, false, List, ◌++◌, copies, copies-append, update, leb, ◌==◌,
  if◌then◌else◌, if_cases, Bool-cases, inl, inr, arith,
}
use rsmalloc.Slab.{TransferCache, CpuCache, ClassCache, is_null, set_hint, set_mail}
use rsmalloc.Slab.Transfer.{transfer_push_batch}
use rsmalloc.Slab.Local.{Attempt, commit_push, push_tailed}
use rsmalloc.Slab.Marked.{Marked, transfer_push_batch-Marked}
use rsmalloc.Slab.Batch.{held}

-- The blocks went to the lists of one CPU.
abbrev pub Gave : (ℕ → CpuCache) → (ℕ → CpuCache) → List ℕ → Type 0
Gave old new blocks =
    (target : ℕ) × ((x c : ℕ)
      → held x (new c) ≡ held x (old c) + (if target == c then copies x blocks else 0))

-- The blocks are with one CPU, and the hints are as they should be.
abbrev pub Sent : ClassCache → ClassCache → List ℕ → Type 0
Sent s after blocks = Marked after × Gave s.cpu after.cpu blocks

-- A CPU whose lists have the blocks in addition.
pub put-Gave :
    (old : ℕ → CpuCache) (i : ℕ) (c' : CpuCache) (blocks : List ℕ)
    → ((x : ℕ) → held x c' ≡ held x (old i) + copies x blocks)
    → Gave old (update old i c') blocks
put-Gave old i c' blocks e = (
  i,
  λ x c. elim (Bool-cases (i == c)) [
    | inl same ↦ let here : i ≡ c = ground (arith, same) in rw (same, ← here) (e x)
    | inr other ↦ rw other (omega arith)
  ],
)

pub pushed_cpu :
    (s : ClassCache) (i : ℕ) (b was_null : Bool) (mail : TransferCache)
    → (if was_null then set_hint (set_mail s i mail) i b else set_mail s i mail).cpu
      ≡ (set_mail s i mail).cpu
pushed_cpu s i b true mail = refl
pushed_cpu s i b false mail = refl

pub transfer_push_batch-Sent :
    (s : ClassCache) (i : ℕ) (blocks : List ℕ)
    → Marked s
    → Sent s (transfer_push_batch s i blocks) blocks
unfolding transfer_push_batch
transfer_push_batch-Sent s i blocks m =
    let mail : TransferCache = record (s.cpu i).mail { list = blocks ++ (s.cpu i).mail.list } in
    let c' : CpuCache = record (s.cpu i) { mail = mail } in
    let same = pushed_cpu s i true (is_null (s.cpu i).mail.list) mail in
    (
      transfer_push_batch-Marked s i blocks m,
      rw (transfer_push_batch, same)
          (put-Gave s.cpu i c' blocks
            (λ x. omega (arith, copies-append x blocks (s.cpu i).mail.list))),
    )

pub commit_push-Sent :
    (s : ClassCache) (i : ℕ) (blocks : List ℕ) (batch_total : ℕ)
    → Marked s
    → Sent s (commit_push s i blocks batch_total) blocks
commit_push-Sent s i blocks batch_total m =
    let c = s.cpu i in
    let c' : CpuCache = record c { list = blocks ++ c.list; usage = c.usage + batch_total } in
    (
      λ j. elim (Bool-cases (i == j)) [
        | inl same ↦ let here : i ≡ j = ground (arith, same) in rw (same, here) (m j)
        | inr other ↦ rw other (m j)
      ],
      put-Gave s.cpu i c' blocks (λ x. omega (arith, copies-append x blocks c.list)),
    )

-- `push_tailed` puts the blocks into the lists of one CPU, whether the sequence commits or not.
pub push_tailed-Sent :
    (high : ℕ) (s : ClassCache) (a : Attempt) (blocks : List ℕ) (batch_size : ℕ)
    → Marked s
    → Sent s (push_tailed high s a blocks batch_size) blocks
unfolding push_tailed
push_tailed-Sent high s a blocks batch_size m =
    let i = a.current_cpu in
    let sent = transfer_push_batch-Sent s i blocks m in
    let committed = commit_push s i blocks batch_size in
    let other = transfer_push_batch s i blocks in
    if_cases (λ t. Sent s t blocks) (leb high (s.cpu i).usage) other
      (if a.commits then committed else other) (λ _. sent)
      (λ _.
        if_cases (λ t. Sent s t blocks) a.commits committed other
          (λ _. commit_push-Sent s i blocks batch_size m) (λ _. sent))
