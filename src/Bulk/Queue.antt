-- ===== src/Bulk/Queue.antt =====
-- `ThreadQueue` of pending_queue.rs: for each node a stack of pages that are not used up, for one size
-- class. `next_page` links are the list.
use rsmalloc.Common.{
  ℕ, Bool, Option, none, some, List, [], ◌∷◌, ◌≡◌, refl, update, leb, ◌==◌, if◌then◌else◌, if_cases,
  ap, ◌∙◌, fun_ext, arith,
}

-- `MetaData` but for `next_page`
pub record MetaData : Type 0 where
  pub start : ℕ
  pub end : ℕ
  pub next : ℕ
  pub node_id : ℕ

-- `ThreadQueue`: whether its table is mapped, and the head of each slot of the class.
pub record ThreadQueue : Type 0 where
  pub mapped : Bool
  pub is_numa : Bool
  pub node_count : ℕ
  pub head : ℕ → List MetaData

-- `slot`: its place in the table
unfoldable pub slot : ThreadQueue → (node_id : ℕ) → Option ℕ
slot q node_id =
    if q.mapped
    then (if q.is_numa then (if leb q.node_count node_id then none else some node_id) else some 0)
    else none

abbrev pub insert_slot : ThreadQueue → MetaData → Option ℕ → ThreadQueue
insert_slot q node none = q
insert_slot q node (some i) = record q { head = update q.head i (node ∷ q.head i) }

-- `insert`
unfoldable pub insert : ThreadQueue → MetaData → ThreadQueue
insert q node = insert_slot q node (slot q node.node_id)

abbrev pub pop_slot : ThreadQueue → ℕ → List MetaData → Option MetaData × ThreadQueue
pop_slot q i [] = (none, q)
pop_slot q i (node ∷ next_page) = (some node, record q { head = update q.head i next_page })

abbrev pub pop_found : ThreadQueue → Option ℕ → Option MetaData × ThreadQueue
pop_found q none = (none, q)
pop_found q (some i) = pop_slot q i (q.head i)

-- `pop`
unfoldable pub pop : ThreadQueue → (node_id : ℕ) → Option MetaData × ThreadQueue
pop q node_id = pop_found q (slot q node_id)

update-back :
    (f : ℕ → List MetaData) (i : ℕ) (changed : List MetaData) (j : ℕ)
    → update (update f i changed) i (f i) j ≡ f j
update-back f i changed j =
    if_cases (λ l. l ≡ f j) (i == j) (f i) (update f i changed j)
      (λ hit. ap f (ground (arith, hit))) (λ miss. rw miss refl)

-- What a `pop` gives after an `insert` of pages in a slot, or in none.
unfoldable pub Back : ThreadQueue → MetaData → Option ℕ → Type 0
Back q node none = (insert q node ≡ q) × (pop (insert q node) node.node_id ≡ (none, q))
Back q node (some i) = pop (insert q node) node.node_id ≡ (some node, q)

slotted-Back :
    (q : ThreadQueue) (node : MetaData) (o : Option ℕ) → slot q node.node_id ≡ o → Back q node o
unfolding insert pop Back slot
slotted-Back q node none e =
    let same : insert q node ≡ q = ap (insert_slot q node) e in
    (same, ap (λ (t : ThreadQueue). pop t node.node_id) same ∙ ap (pop_found q) e)
slotted-Back q node (some i) e =
    let pages = node ∷ q.head i in
    let put : ThreadQueue = record q { head = update q.head i pages } in
    let same : insert q node ≡ put = ap (insert_slot q node) e in
    ap (λ (t : ThreadQueue). pop t node.node_id) same
    ∙ ap (pop_found put) e
    ∙ ap (pop_slot put i) (
        if_cases (λ l. l ≡ pages) (i == i) pages (q.head i) (λ _. refl)
          (λ miss. absurd (ground (arith, miss))))
    ∙ ap (λ (f : ℕ → List MetaData). (some node, record q { head = f }))
        (fun_ext (update-back q.head i pages))

-- `pop` undoes `insert`: where the table has a slot for the node of the pages, the next `pop` for that
-- node gives the pages and the queue as it was before; where it has none, `insert` changes nothing and
-- `pop` gives none.
pub pop-insert : (q : ThreadQueue) (node : MetaData) → Back q node (slot q node.node_id)
pop-insert q node = slotted-Back q node (slot q node.node_id) refl
