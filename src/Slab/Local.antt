-- ===== src/Slab/Local.antt =====
-- `push`, `push_tailed` and `pop` of `GenericCache`. Each round reads the CPU and runs a restartable
-- sequence, which commits or aborts.
use rsmalloc.Common.{
  ℕ, ◌+◌, ◌-◌, Bool, Option, none, some, List, [], ◌∷◌, ◌++◌, update, leb, ltb, ◌==◌, if◌then◌else◌,
}
use rsmalloc.Slab.{CpuCache, ClassCache}
use rsmalloc.Slab.Transfer.{transfer_push_batch, transfer_push_single, transfer_pop_single}

abbrev pub set_cpu : ClassCache → (cpu_id : ℕ) → CpuCache → ClassCache
set_cpu s cpu_id c = record s { cpu = update s.cpu cpu_id c }

-- The sequences of rseq_asm.rs where they commit.
abbrev pub commit_push : ClassCache → (cpu_id : ℕ) → List ℕ → (batch_total : ℕ) → ClassCache
commit_push s cpu_id blocks batch_total =
    let c = s.cpu cpu_id in
    set_cpu s cpu_id (record c { list = blocks ++ c.list; usage = c.usage + batch_total })

abbrev pub pop_head : CpuCache → (list : List ℕ) → Option ℕ × CpuCache
pop_head c [] = (none, c)
pop_head c (head ∷ next) = (some head, record c { list = next; usage = c.usage - 1 })

-- One round: the CPU, and whether the sequence commits.
pub record Attempt : Type 0 where
  pub current_cpu : ℕ
  pub commits : Bool

-- `push_tailed`, with `CACHE_HIGH_BLOCKS` of the class
unfoldable pub push_tailed :
    (high : ℕ) → ClassCache → Attempt → (blocks : List ℕ) → (batch_size : ℕ) → ClassCache
push_tailed high s a blocks batch_size =
    if leb high (s.cpu a.current_cpu).usage
    then transfer_push_batch s a.current_cpu blocks
    else if a.commits
    then commit_push s a.current_cpu blocks batch_size
    else transfer_push_batch s a.current_cpu blocks

-- `push`: the rounds are the list; `none` if the list ends before the loop does.
unfoldable pub push :
    (high : ℕ) → ClassCache → List Attempt → (loop_count header : ℕ) → Option ClassCache
push high s [] loop_count header = none
push high s (a ∷ rest) loop_count header =
    let later = push high s rest (loop_count + 1) header in
    if leb high (s.cpu a.current_cpu).usage
    then some (transfer_push_single s a.current_cpu header)
    else if a.commits
    then some (commit_push s a.current_cpu (header ∷ []) 1)
    else if ltb 3 loop_count
    then some (transfer_push_single s a.current_cpu header)
    else later

abbrev pub found_or :
    Option ℕ → ClassCache → Option (Option ℕ × ClassCache) → Option (Option ℕ × ClassCache)
found_or none s later = later
found_or (some mail) s later = some (some mail, s)

-- `pop`: the result is null where the list of the CPU is empty.
unfoldable pub pop : ClassCache → List Attempt → (loop_count : ℕ) → Option (Option ℕ × ClassCache)
pop s [] loop_count = none
pop s (a ∷ rest) loop_count =
    let i = a.current_cpu in
    let (header, c) = pop_head (s.cpu i) (s.cpu i).list in
    let (mail, s') = transfer_pop_single s i in
    let retry = pop s rest (loop_count + 1) in
    let after_mail = pop s' rest 1 in
    if a.commits
    then some (header, set_cpu s i c)
    else if loop_count == 3
    then found_or mail s' after_mail
    else retry
