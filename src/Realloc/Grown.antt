-- ===== src/Realloc/Grown.antt =====
-- What the growth in place of `small_realloc` in inner/realloc.rs checks, asks for and writes.
use rsmalloc.Common.{ℕ, ◌+◌, ◌-◌, ◌%◌, ◌^◌, ◌≤◌, ◌<◌, ◌≡◌, ◌≢◌, ap, true, some, ◌∷◌, update, arith}
use rsmalloc.Layout.{header_size, metadata_size}
use rsmalloc.SizeClass.{
  num_size_classes, class_size, match_size_class, iterations, align_to, block_size,
}
use rsmalloc.SizeClass.Align.{align_to_bounds}
use rsmalloc.SizeClass.Match.{match_size_class-Fits}
use rsmalloc.SizeClass.Refill.{refill_bounds, class_size_bound}
use rsmalloc.Realloc.{Calls, Store, grows_inplace, grow_inplace}

-- The fewest whole pages, from `base` on, that reach up to `end`.
abbrev pub PagesTo : (base total end : ℕ) → Type 0
PagesTo base total end = (total % 4096 ≡ 0) × (end ≤ base + total) × (base + total < end + 4096)

-- The block of `old` bytes is alone behind the metadata at `base`, which is its own and belongs to a node.
-- The page allocator was asked to grow the pages of the old payload to those of the new class, and said
-- yes. After that the metadata ends with the new payload, these pages are published as owned, the header
-- has the new class, and nothing else is changed.
pub record Grew (c : Calls) (s : Store) (ptr old new_size : ℕ) (after : Store) : Type 0 where
  pub class : ℕ
  pub base : ℕ
  pub old_page_total : ℕ
  pub new_page_total : ℕ
  pub least : match_size_class new_size ≡ some class
  pub fits : new_size ≤ class_size class
  pub alone : (iterations (s.headers (ptr - header_size)).class ≡ 1) × (iterations class ≡ 1)
  pub behind : (ptr ≡ base + metadata_size + header_size) × (base % 4096 ≡ 0)
  pub own : ((s.metadata base).start ≡ base) × ((s.metadata base).node_id ≢ 2 ^ 16 - 1)
  pub old_pages : PagesTo base old_page_total (ptr + old)
  pub new_pages : PagesTo base new_page_total (ptr + class_size class)
  pub agreed :
      c.try_grow_inplace (s.metadata base).node_id base old_page_total new_page_total ≡ true
  pub written : after ≡ record s {
    metadata =
        update s.metadata base (record (s.metadata base) {
          end = ptr + class_size class;
          next = ptr + class_size class;
        });
    published = (base, new_page_total) ∷ s.published;
    headers =
        update s.headers
          (ptr - header_size)
          (record (s.headers (ptr - header_size)) { class = class });
  }

-- The pages of the mapping of a block.
class_pages :
    (base ptr class : ℕ)
    → ptr ≡ base + metadata_size + header_size
    → class < num_size_classes
    → PagesTo base
        (align_to (metadata_size + block_size (class_size class)) 4096)
        (ptr + class_size class)
class_pages base ptr class behind known =
    let (padding, one, whole, rest, last) = refill_bounds class known in
    let small = class_size_bound class known in
    let total = metadata_size + block_size (class_size class) in
    let (above, below, pages) =
      align_to_bounds 12 total (omega arith) (omega (arith, padding, small)) in
    (pages, omega (arith, above, padding, behind), omega (arith, below, padding, behind))

pub grow_inplace-Grew :
    (c : Calls) (s : Store) (ptr new_size new_class : ℕ)
    → let old_class = (s.headers (ptr - header_size)).class in
      old_class < num_size_classes
      → match_size_class new_size ≡ some new_class
      → grows_inplace c s (ptr - header_size) old_class new_class ≡ true
      → Grew c s ptr (class_size old_class) new_size (grow_inplace s ptr new_class)
unfolding class_size
grow_inplace-Grew c s ptr new_size new_class known e grows =
    let (new_known, fits, least) = match_size_class-Fits new_size new_class e in
    let (padding, one, whole, rest, last) = refill_bounds new_class new_known in
    let old_class = (s.headers (ptr - header_size)).class in
    let base = ptr - header_size - metadata_size in
    let behind : ptr ≡ base + metadata_size + header_size = ground (arith, grows) in
    let end : base + (metadata_size + block_size (class_size new_class))
        ≡ ptr + class_size new_class =
      omega (arith, padding, behind) in
    record {
      class = new_class;
      base = base;
      old_page_total = align_to (metadata_size + block_size (class_size old_class)) 4096;
      new_page_total = align_to (metadata_size + block_size (class_size new_class)) 4096;
      least = e;
      fits = fits;
      alone = (ground (arith, grows), ground (arith, grows));
      behind = (behind, ground (arith, grows));
      own = (ground (arith, grows), ground (arith, grows));
      old_pages = class_pages base ptr old_class behind known;
      new_pages = class_pages base ptr new_class behind new_known;
      agreed = ground (arith, grows);
      written =
          ap
            (λ (end : ℕ). record s {
              metadata =
                  update s.metadata base (record (s.metadata base) { end = end; next = end });
              published =
                  (base, align_to (metadata_size + block_size (class_size new_class)) 4096)
                  ∷ s.published;
              headers =
                  update s.headers (ptr - header_size)
                    (record (s.headers (ptr - header_size)) { class = new_class });
            })
            end;
    }
