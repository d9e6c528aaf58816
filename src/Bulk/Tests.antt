-- ===== src/Bulk/Tests.antt =====
-- Runs of rseq_core/bulk_fill.rs and rseq_core/pending_queue.rs, and witnesses of the theorems on them.
use rsmalloc.Common.{ℕ, ◌+◌, ◌≡◌, refl, true, none, some, [], ◌∷◌, arith}
use rsmalloc.SizeClass.{class_size, block_size}
use rsmalloc.Bulk.{Header, Heap, init_blocks, init_loop, alloc_total, alloc_metadata}
use rsmalloc.Bulk.Queue.{MetaData, ThreadQueue, slot, insert, pop, Back, pop-insert}
use rsmalloc.Bulk.Carve.{Carved, init_blocks-Carved}
use rsmalloc.Bulk.Fill.{fill_from, fill_new, bulk_fill}
use rsmalloc.Bulk.Open.{HeapOpen}
use rsmalloc.Bulk.Answered.{Answer, bulk_fill-Answer}

-- Two nodes, one page for each.
abbrev page_of : (base node_id : ℕ) → MetaData
page_of base node_id = record {
  start = base;
  end = base + 4096;
  next = base + 48;
  node_id = node_id;
}

abbrev two_nodes : ThreadQueue
two_nodes = record { mapped = true; is_numa = true; node_count = 2; head = λ i. [] }

abbrev one_waits : ThreadQueue
one_waits = record {
  mapped = true;
  is_numa = true;
  node_count = 2;
  head = λ i. page_of 4096 i ∷ [];
}

abbrev old_header : Header
old_header = record { flags = 0; class = 3; magic = 0; life_time = 0 }

abbrev empty_heap : Heap
empty_heap = record {
  headers = λ a. old_header;
  free = none;
  queue = two_nodes;
  radix = λ i. none;
  cached_va = 0;
  freed_magic = 19794;
}

-- A class of blocks of 1040 bytes: no pages, four blocks are wanted.
fills_new :
    (bulk_fill 14 0 4 7 (some 65536) empty_heap).0 ≡ some (65584 ∷ 66624 ∷ 67664 ∷ 68704 ∷ [])
unfolding bulk_fill fill_new fill_from init_blocks init_loop alloc_total alloc_metadata pop slot
fills_new = refl

no_pages_left : bulk_fill 14 0 4 7 none empty_heap ≡ (none, empty_heap)
unfolding bulk_fill fill_new alloc_metadata pop slot
no_pages_left = refl

fills_waiting :
    (bulk_fill 14 1 4 7 none (record empty_heap { queue = one_waits })).0
    ≡ some (4144 ∷ 5184 ∷ 6224 ∷ [])
unfolding bulk_fill fill_from fill_new alloc_metadata init_blocks init_loop pop slot
fills_waiting = refl

init_blocks-Carved_example :
    Carved 19794 14 1040 2 7
      (page_of 4096 0)
      (λ a. old_header)
      (init_blocks 19794 14 (page_of 4096 0) 1040 2 7 (λ a. old_header))
init_blocks-Carved_example =
    init_blocks-Carved 19794 14 (page_of 4096 0) 1040 2 7 (λ a. old_header) (omega arith)
      (omega arith)

pop-insert_example : pop (insert one_waits (page_of 8192 1)) 1 ≡ (some (page_of 8192 1), one_waits)
unfolding Back slot
pop-insert_example = pop-insert one_waits (page_of 8192 1)

waiting_HeapOpen : HeapOpen 1040 (record empty_heap { queue = one_waits })
waiting_HeapOpen = (tt, λ i. (omega arith, tt))

bulk_fill-Answer_example :
    Answer 14 1040 1 4 none
      (record empty_heap { queue = one_waits })
      (bulk_fill 14 1 4 7 none (record empty_heap { queue = one_waits }))
unfolding class_size block_size
bulk_fill-Answer_example =
    bulk_fill-Answer 14 1 4 7 none (record empty_heap { queue = one_waits }) (omega arith)
      (omega arith) waiting_HeapOpen
