-- ===== src/Slab/Tests.antt =====
-- Theorems of the caches of a class at a concrete state, and runs.
use rsmalloc.Common.{
  ℕ, zero, suc, ◌+◌, ◌*◌, ◌/◌, ◌%◌, ◌≡◌, refl, true, false, none, some, [], ◌∷◌, ◌==◌, arith,
}
use rsmalloc.Slab.{CpuCache, ClassCache}
use rsmalloc.Slab.Tag.{tag_step, pack, unpack_ptr, unpack_ptr-pack}
use rsmalloc.Slab.Transfer.{walk, transfer_pop_batch}
use rsmalloc.Slab.Steal.{
  Topology, set_bits, steal_from, steal_word, steal_words, first_nonempty_cpu_in_range, pop_slow,
  pop_own, try_pop,
}
use rsmalloc.Slab.Local.{Attempt, push, pop}
use rsmalloc.Slab.Marked.{Marked}
use rsmalloc.Slab.Searched.{Result}
use rsmalloc.Slab.Taken.{Covers, try_pop-Result}
use rsmalloc.Slab.Kept.{Counted, Ends, push-Ends}
use rsmalloc.Slab.Popped.{PopResult, pop-PopResult}
use rsmalloc.Slab.Hidden.{transfer_pop_batch-hides}

abbrev empty_cpu : CpuCache
empty_cpu = record { list = []; usage = 0; mail = record { list = []; trimmed = [] } }

-- CPU 1 has three blocks on its normal list and one on the trimmed one; the others have none.
abbrev cpus : ℕ → CpuCache
cpus zero = empty_cpu
cpus (suc zero) = record empty_cpu {
  mail = record { list = 100 ∷ 200 ∷ 300 ∷ []; trimmed = 400 ∷ [] };
}
cpus (suc (suc c)) = empty_cpu

abbrev state : ClassCache
state = record { cpu = cpus; nonempty = λ c. c == 1; being_stolen = λ c. false }

state-Marked : Marked state
state-Marked zero h = cc
state-Marked (suc zero) h = refl
state-Marked (suc (suc c)) h = cc

state-Counted : Counted state.cpu
state-Counted zero = refl
state-Counted (suc zero) = refl
state-Counted (suc (suc c)) = refl

abbrev four_cpus : Topology
four_cpus = record {
  is_numa = false;
  ncpu = 4;
  nranges = 1;
  cpu_to_node = λ c. 0;
  start_cpu = λ n. 0;
  end_cpu = λ n. 3;
}

try_pop-Result_example :
    Result (Covers four_cpus) state.cpu state.nonempty (try_pop four_cpus 0 2 state)
try_pop-Result_example = try_pop-Result four_cpus 0 2 state state-Marked (omega arith) (omega arith)

-- CPU 0 steals a batch of two.
stolen : (try_pop four_cpus 0 2 state).0 ≡ some (100 ∷ 200 ∷ [])
unfolding try_pop pop_slow first_nonempty_cpu_in_range steal_words steal_word steal_from set_bits
    transfer_pop_batch walk
stolen = refl

abbrev aborted : Attempt
aborted = record { current_cpu = 0; commits = false }

abbrev committed : Attempt
committed = record { current_cpu = 1; commits = true }

push-Ends_example :
    Ends state
      (push 8 state (aborted ∷ committed ∷ aborted ∷ aborted ∷ aborted ∷ []) 0 500)
      (500 ∷ [])
push-Ends_example =
    push-Ends 8 state (aborted ∷ committed ∷ aborted ∷ aborted ∷ aborted ∷ []) 0 500 state-Marked
      state-Counted (omega arith) (omega arith)

pop-PopResult_example :
    PopResult state (aborted ∷ committed ∷ []) (pop state (aborted ∷ committed ∷ []) 0)
pop-PopResult_example = pop-PopResult state (aborted ∷ committed ∷ []) 0 state-Marked state-Counted

unpack_ptr-pack_example :
    ((unpack_ptr (pack 0xabcdef12345670 (255 * tag_step))).0 ≡ 0xabcdef12345670)
    × (pack 0xabcdef12345670 (255 * tag_step) / tag_step ≡ (255 * tag_step / tag_step + 1) % 256)
unpack_ptr-pack_example =
    unpack_ptr-pack 0xabcdef12345670 (255 * tag_step) (omega arith) (omega arith)

transfer_pop_batch-hides_example :
    let after = (transfer_pop_batch state 1 3).1 in
    ((after.cpu 1).mail.trimmed ≡ 400 ∷ [])
    × (after.nonempty 1 ≡ false)
    × (pop_own 1 3 after ≡ (none, after))
transfer_pop_batch-hides_example =
    transfer_pop_batch-hides state 1 3 100 (200 ∷ 300 ∷ []) (400 ∷ []) refl (omega arith)
