-- ===== src/Bulk/Carve.antt =====
-- `init_blocks` of rseq_core/bulk_fill.rs, next to the row of blocks that it should carve.
use rsmalloc.Common.{
  ℕ, zero, suc, ◌+◌, ◌-◌, ◌*◌, ◌≤◌, ◌<◌, ◌≡◌, ◌≢◌, refl, ap, ◌∙◌, min, List, [], ◌∷◌, ◌++◌, update,
  ◌==◌, if_cases, length, arith,
}
use native.Mathlib.Decide.{dec_lt}
use native.Mathlib.Nat.{div-mul-le_self, mul-le-mul_right}
use mathlib.Core.List.{append-nil}
use rsmalloc.Bulk.Queue.{MetaData}
use rsmalloc.Bulk.{Header, remaining_blocks, init_loop, init_blocks, zero_flag}

-- Blocks one after another from an address.
abbrev pub blocks_from : (count base block_size : ℕ) → List ℕ
blocks_from zero base size = []
blocks_from (suc n) base size = base ∷ blocks_from n (base + size) size

-- The header that a fresh block gets.
abbrev pub fresh_header : (freed_magic class current_stamp : ℕ) → Header
fresh_header freed_magic class stamp = record {
  flags = zero_flag;
  class = class;
  magic = freed_magic;
  life_time = stamp;
}

blocks_from-last :
    (n base size : ℕ) (head : List ℕ)
    → blocks_from n base size ++ ((base + n * size) ∷ head) ≡ blocks_from (suc n) base size ++ head
blocks_from-last zero base size head = let e : base + 0 * size ≡ base = omega arith in rw e
blocks_from-last (suc n) base size head =
    let e : base + suc n * size ≡ (base + size) + n * size = omega arith in
    rw e (ap (λ (l : List ℕ). base ∷ l) (blocks_from-last n (base + size) size head))

length-blocks_from : (n base size : ℕ) → length (blocks_from n base size) ≡ n
length-blocks_from zero base size = refl
length-blocks_from (suc n) base size = ap suc (length-blocks_from n (base + size) size)

init_loop-blocks :
    (n base size : ℕ) (header : Header) (headers : ℕ → Header) (head : List ℕ)
    → (init_loop n base size header headers head).0 ≡ blocks_from n base size ++ head
unfolding init_loop
init_loop-blocks zero base size header headers head = refl
init_loop-blocks (suc n) base size header headers head =
    init_loop-blocks n base size header (update headers (base + n * size) header)
      ((base + n * size) ∷ head)
    ∙ blocks_from-last n base size head

-- An address that is no block of the row keeps its header.
init_loop-others :
    (n base size : ℕ) (header : Header) (headers : ℕ → Header) (head : List ℕ) (a : ℕ)
    → ((k : ℕ) → k < n → a ≢ base + k * size)
    → (init_loop n base size header headers head).1 a ≡ headers a
unfolding init_loop
init_loop-others zero base size header headers head a apart = refl
init_loop-others (suc n) base size header headers head a apart =
    init_loop-others n base size header (update headers (base + n * size) header)
      ((base + n * size) ∷ head) a (λ k lt. apart k (omega arith))
    ∙ if_cases (λ (h : Header). h ≡ headers a) ((base + n * size) == a) header (headers a)
        (λ hit. absurd (apart n (omega arith) (ground (arith, hit)))) (λ _. refl)

init_loop-written :
    (n base size : ℕ) (header : Header) (headers : ℕ → Header) (head : List ℕ) (a : ℕ)
    → headers a ≡ header
    → (init_loop n base size header headers head).1 a ≡ header
unfolding init_loop
init_loop-written zero base size header headers head a h = h
init_loop-written (suc n) base size header headers head a h =
    init_loop-written n base size header (update headers (base + n * size) header)
      ((base + n * size) ∷ head) a
      (if_cases (λ (x : Header). x ≡ header) ((base + n * size) == a) header (headers a) (λ _. refl)
        (λ _. h))

init_loop-fresh :
    (n base size : ℕ) (header : Header) (headers : ℕ → Header) (head : List ℕ) (k : ℕ)
    → k < n
    → (init_loop n base size header headers head).1 (base + k * size) ≡ header
unfolding init_loop
init_loop-fresh zero base size header headers head k lt = absurd (omega arith)
init_loop-fresh (suc n) base size header headers head k lt =
    let a = base + k * size in
    let last = base + n * size in
    elim (dec_lt k n) [
      | no ge ↦
          let e : k ≡ n = omega arith in
          init_loop-written n base size header (update headers last header) (last ∷ head) a (
            if_cases (λ (x : Header). x ≡ header) (last == a) header (headers a) (λ _. refl)
              (λ miss. absurd (ground (arith, miss, ap (λ (t : ℕ). t * size) e))))
      | yes below ↦
          init_loop-fresh n base size header (update headers last header) (last ∷ head) k below
    ]

room-fits :
    (metadata : MetaData) (size max_blocks : ℕ)
    → 0 < size
    → metadata.next ≤ metadata.end
    → metadata.next + min (remaining_blocks metadata size) max_blocks * size ≤ metadata.end
room-fits metadata size max_blocks pos start =
    let r = remaining_blocks metadata size in
    let whole : r * size ≤ metadata.end - metadata.next =
      div-mul-le_self (metadata.end - metadata.next) size in
    let less : min r max_blocks * size ≤ r * size = mul-le-mul_right size (omega arith) in
    omega (arith, whole, less, start)

-- What `init_blocks` returns: blocks, one after another, the metadata and the headers.
pub record Carved (freed_magic class size max_blocks stamp : ℕ) (metadata : MetaData)
    (headers : ℕ → Header) (r : List ℕ × MetaData × (ℕ → Header)) : Type 0 where
  pub blocks : r.0 ≡ blocks_from (length r.0) metadata.next size
  pub most : length r.0 ≡ min (remaining_blocks metadata size) max_blocks
  pub moved : r.1 ≡ record metadata { next = metadata.next + length r.0 * size }
  pub inside : metadata.next + length r.0 * size ≤ metadata.end
  pub fresh :
      (k : ℕ)
      → k < length r.0
      → r.2 (metadata.next + k * size) ≡ fresh_header freed_magic class stamp
  pub others :
      (a : ℕ) → ((k : ℕ) → k < length r.0 → a ≢ metadata.next + k * size) → r.2 a ≡ headers a

-- `init_blocks` on pages with `next` in them and blocks of a size above 0: it returns the blocks that lie
-- one after another from `next`, as many as `max_blocks` or as there is room for, all of them before
-- `end`; it moves `next` past them, gives each a fresh header and changes no other header.
pub init_blocks-Carved :
    (freed_magic class : ℕ) (metadata : MetaData) (size max_blocks stamp : ℕ) (headers : ℕ → Header)
    → 0 < size
    → metadata.next ≤ metadata.end
    → Carved freed_magic class size max_blocks stamp metadata headers
        (init_blocks freed_magic class metadata size max_blocks stamp headers)
unfolding init_blocks
init_blocks-Carved freed_magic class metadata size max_blocks stamp headers pos start =
    let remaining = remaining_blocks metadata size in
    let n = min remaining max_blocks in
    let header = fresh_header freed_magic class stamp in
    let r = init_loop n metadata.next size header headers [] in
    if_cases (Carved freed_magic class size max_blocks stamp metadata headers) (remaining == 0)
      ([], metadata, headers) (r.0, record metadata { next = metadata.next + n * size }, r.1)
      (λ none_left.
        let zero_left : remaining ≡ 0 = ground (arith, none_left) in
        record {
          blocks = refl;
          most = omega (arith, zero_left);
          moved = ap (λ (t : ℕ). record metadata { next = t }) (omega arith);
          inside = omega arith;
          fresh = λ k lt. absurd (omega arith);
          others = λ a apart. refl;
        })
      (λ some_left.
        let all = init_loop-blocks n metadata.next size header headers [] ∙ append-nil _ in
        let len : length r.0 ≡ n = ap length all ∙ length-blocks_from n metadata.next size in
        record {
          blocks = rw len all;
          most = len;
          moved = rw len refl;
          inside = rw len (room-fits metadata size max_blocks pos start);
          fresh = λ k lt.
              init_loop-fresh n metadata.next size header headers [] k (omega (arith, lt, len));
          others = λ a apart.
              init_loop-others n metadata.next size header headers [] a
                (λ k lt. apart k (omega (arith, lt, len)));
        })
