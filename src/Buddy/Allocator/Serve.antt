-- ===== src/Buddy/Allocator/Serve.antt =====
-- `alloc` and `free` of buddy.rs over all regions: what a caller gets, and where the bytes come from.
use rsmalloc.Common.{
  ℕ, zero, suc, ◌+◌, ◌%◌, ◌^◌, ◌≤◌, ◌≡◌, refl, ◌∙◌, Bool, true, false, List, [], ◌∷◌, arith, ◌==◌,
  Bool-cases, Option, none, some, ap, Option-cases, ◌⊎◌, inl, inr,
}
use rsmalloc.Buddy.Region.{Region, min_order, max_order, alloc_from_region}
use rsmalloc.Buddy.Region.Covers.{inside, covers}
use rsmalloc.Buddy.Region.Valid.{slot, IsValid}
use rsmalloc.Buddy.Region.Alloc.{Outcome, slot-SameFrame, alloc_from_region-Outcome}
use rsmalloc.Buddy.Allocator.{
  use_region, or_else, search_again, Block, alloc_from_node, alloc_from_any,
}

unfoldable pub AllValid : List (ℕ × Region) → Type 0
AllValid [] = Unit
AllValid ((_, r) ∷ rest) = IsValid r × AllValid rest

-- The free blocks of all regions that hold the byte.
unfoldable pub free_at : List (ℕ × Region) → ℕ → ℕ
free_at [] u = 0
free_at ((_, r) ∷ rest) u = covers r u + free_at rest u

-- The block stands in a region of this node of the list, at a place for its order.
pub Home : List (ℕ × Region) → ℕ → Block → Type 0
Home [] node_id block = ⊥
Home ((node, r) ∷ rest) node_id block =
    ((node ≡ block.region) × (r.node_id ≡ node_id) × (slot r block.order block.addr ≡ true))
    ⊎ Home rest node_id block

-- A block left the free blocks of the regions.
pub record Served (regions : List (ℕ × Region)) (requested node_id : ℕ) (block : Block)
    (after : List (ℕ × Region)) : Type 0 where
  pub valid : AllValid after
  pub order : block.order ≡ requested
  pub home : Home after node_id block
  pub took : (u : ℕ) → free_at after u + inside block.addr requested u ≡ free_at regions u

abbrev NodeOutcome :
    List (ℕ × Region) → (requested node_id : ℕ) → Option Block × List (ℕ × Region) → Type 0
NodeOutcome regions requested node_id (none, after) = after ≡ regions
NodeOutcome regions requested node_id (some block, after) =
    Served regions requested node_id block after

skip-Outcome :
    (node : ℕ) (r : Region) (regions : List (ℕ × Region)) (requested node_id : ℕ)
    → (out : Option Block × List (ℕ × Region)) → IsValid r
    → NodeOutcome regions requested node_id out
    → NodeOutcome ((node, r) ∷ regions) requested node_id (out.0, (node, r) ∷ out.1)
unfolding AllValid free_at Home
skip-Outcome node r regions requested node_id (none, after) v same = ap (λ l. (node, r) ∷ l) same
skip-Outcome node r regions requested node_id (some block, after) v served = record {
  valid = (v, served.valid);
  order = served.order;
  home = inr served.home;
  took = λ u. omega (arith, served.took u);
}

use_region-Outcome :
    (node : ℕ) (r : Region) (rest : List (ℕ × Region)) (requested node_id : ℕ)
    → (later : Option Block × List (ℕ × Region)) (out : Option (ℕ × ℕ) × Region) → IsValid r
    → AllValid rest
    → r.node_id ≡ node_id
    → Outcome r requested requested out
    → NodeOutcome rest requested node_id later
    → NodeOutcome ((node, r) ∷ rest) requested node_id (use_region node requested rest later out)
unfolding use_region AllValid free_at Home
use_region-Outcome node r rest requested node_id later (none, s) v vs same (e, _) tail =
    rw e (skip-Outcome node r rest requested node_id later v tail)
use_region-Outcome node r rest requested node_id later (some (addr, _), s) v vs same taken tail =
    record {
      valid = (taken.valid, vs);
      order = refl;
      home = inl (
        refl,
        taken.frame.node_id ∙ same,
        slot-SameFrame requested addr taken.frame ∙ taken.here,
      );
      took = λ u. omega (arith, taken.took u);
    }

pub alloc_from_node-Outcome :
    (regions : List (ℕ × Region)) (requested node_id : ℕ)
    → AllValid regions
    → min_order ≤ requested
    → requested ≤ max_order
    → NodeOutcome regions requested node_id (alloc_from_node regions requested node_id)
unfolding alloc_from_node AllValid free_at Home
alloc_from_node-Outcome [] requested node_id v lo hi = refl
alloc_from_node-Outcome ((node, r) ∷ rest) requested node_id (v, vs) lo hi =
    let later = alloc_from_node-Outcome rest requested node_id vs lo hi in
    elim (Bool-cases (r.node_id == node_id)) [
      | inr other ↦ rw other (
          skip-Outcome node r rest requested node_id (alloc_from_node rest requested node_id) v
            later)
      | inl same ↦ rw same (
          use_region-Outcome node r rest requested node_id (alloc_from_node rest requested node_id)
            (alloc_from_region r requested) v vs (ground arith)
            (alloc_from_region-Outcome r requested v lo hi) later)
    ]

-- The search of one node or of several, with the node that served it.
abbrev pub SearchOutcome :
    List (ℕ × Region) → (requested : ℕ) → Option Block × List (ℕ × Region) → Type 0
SearchOutcome regions requested (none, after) = after ≡ regions
SearchOutcome regions requested (some block, after) =
    (node_id : ℕ) × Served regions requested node_id block after

pub search-node :
    (regions : List (ℕ × Region)) (requested node_id : ℕ) (out : Option Block × List (ℕ × Region))
    → NodeOutcome regions requested node_id out
    → SearchOutcome regions requested out
search-node regions requested node_id (none, after) same = same
search-node regions requested node_id (some block, after) served = (node_id, served)

pub search-some :
    (regions : List (ℕ × Region)) (requested : ℕ) (out : Option Block × List (ℕ × Region))
    (b : Block)
    → SearchOutcome regions requested out
    → out.0 ≡ some b
    → (node_id : ℕ) × Served regions requested node_id b out.1
search-some regions requested (none, after) b h e = cc
search-some regions requested (some block, after) b h e = let same : block ≡ b = cc in rw (← same) h

pub search-none :
    (regions : List (ℕ × Region)) (requested : ℕ) (out : Option Block × List (ℕ × Region))
    → SearchOutcome regions requested out
    → out.0 ≡ none
    → out.1 ≡ regions
search-none regions requested (none, after) h e = h
search-none regions requested (some block, after) h e = cc

pub alloc_from_any-Outcome :
    (n : ℕ) (regions : List (ℕ × Region)) (requested node_id nranges i : ℕ)
    → AllValid regions
    → min_order ≤ requested
    → requested ≤ max_order
    → SearchOutcome regions requested (alloc_from_any n regions requested node_id nranges i)
unfolding alloc_from_any
alloc_from_any-Outcome zero regions requested node_id nranges i v lo hi = refl
alloc_from_any-Outcome (suc n) regions requested node_id nranges i v lo hi =
    elim (Option-cases one.0) [
      | inl e ↦
          rw (alloc_from_any, e, search-none regions requested one here e)
            (alloc_from_any-Outcome n regions requested node_id nranges (i + 1) v lo hi)
      | inr (b, e) ↦ rw (alloc_from_any, e) (search-some regions requested one b here e)
    ]
  where
    node : ℕ
    node = ((i + node_id) % nranges) % 2 ^ 16

    one : Option Block × List (ℕ × Region)
    one = alloc_from_node regions requested node

    here : SearchOutcome regions requested one
    here =
        search-node regions requested node one
          (alloc_from_node-Outcome regions requested node v lo hi)

pub search_again-Outcome :
    (added : Bool) (regions : List (ℕ × Region)) (requested node_id nranges : ℕ)
    → AllValid regions
    → min_order ≤ requested
    → requested ≤ max_order
    → SearchOutcome regions requested (search_again added regions requested node_id nranges)
unfolding search_again or_else
search_again-Outcome false regions requested node_id nranges v lo hi =
    alloc_from_any-Outcome nranges regions requested node_id nranges 0 v lo hi
search_again-Outcome true regions requested node_id nranges v lo hi =
    go (alloc_from_node regions requested node_id) (
      search-node regions requested node_id _
        (alloc_from_node-Outcome regions requested node_id v lo hi))
  where
    any : List (ℕ × Region) → Option Block × List (ℕ × Region)
    any l = alloc_from_any nranges l requested node_id nranges 0

    go :
        (out : Option Block × List (ℕ × Region))
        → SearchOutcome regions requested out
        → SearchOutcome regions requested (or_else out any)
    go (some block, after) served = served
    go (none, after) same =
        rw same (alloc_from_any-Outcome nranges regions requested node_id nranges 0 v lo hi)
