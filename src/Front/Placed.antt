-- ===== src/Front/Placed.antt =====
-- `rs_free` and `usable_size` of inner/free.rs and inner/alloc.rs on pointers that inner/align.rs placed
-- inside a block.
use rsmalloc.Common.{
  ℕ, ◌+◌, ◌-◌, ◌^◌, ◌≤◌, ◌<◌, ◌≡◌, ◌≢◌, refl, sym, ap, ◌∙◌, true, false, Option, none, some, ◌==◌,
  Bool-cases, inl, inr, ltb, arith,
}
use rsmalloc.Align.{Memory, Aligned, placed, tag_size, posix_align_inner, find_original_ptr}
use rsmalloc.Align.Placed.{posix_align_inner-Inside}
use rsmalloc.Layout.{header_size}
use rsmalloc.SizeClass.{num_size_classes, class_size}
use rsmalloc.Rbtree.{BigAllocMeta}
use rsmalloc.Front.{
  World, holds, original_of, rs_free, usable_big, usable_class, usable_block, usable_size,
}

-- The world after words were written.
abbrev pub writes : World → Memory → World
writes w after = record w { words = after }

-- What holds of a placed pointer: it is freed as its block is, and has at least `size` usable bytes.
pub record AsBlock (w : World) (size raw : ℕ) (r : Aligned) : Type 0 where
  pub aligned : ℕ
  pub after : Memory
  pub result : r ≡ placed aligned after
  pub freed :
      w.is_owned aligned ≡ some true
      → rs_free (writes w after) aligned ≡ rs_free (writes w after) raw
  pub usable :
      (total : ℕ)
      → w.is_owned aligned ≡ some true
      → usable_size (writes w after) raw ≡ some total
      → aligned + size ≤ raw + total
      → (n : ℕ) × (usable_size (writes w after) aligned ≡ some n) × (size ≤ n)

-- A block whose words before it have no tag is its own original.
untagged :
    (w : World) (raw : ℕ) → w.words (raw - tag_size) ≢ w.align_tag → original_of w raw ≡ some raw
unfolding find_original_ptr
untagged w raw no_tag =
    let miss : (w.words (raw - tag_size) == w.align_tag) ≡ false = ground (arith, no_tag) in
    rw miss refl

big_offset :
    (meta : Option BigAllocMeta) (aligned raw total size : ℕ)
    → raw ≤ aligned
    → aligned + size ≤ raw + total
    → usable_big meta (raw - raw) ≡ some total
    → (n : ℕ) × (usable_big meta (aligned - raw) ≡ some n) × (size ≤ n)
big_offset none aligned raw total size low room e = cc
big_offset (some meta) aligned raw total size low room e =
    let same : meta.size - (raw - raw) ≡ total = cc in
    (meta.size - (aligned - raw), refl, omega (arith, same, low, room))

class_offset :
    (class aligned raw total size : ℕ)
    → raw ≤ aligned
    → aligned + size ≤ raw + total
    → usable_class class (raw - raw) ≡ some total
    → (n : ℕ) × (usable_class class (aligned - raw) ≡ some n) × (size ≤ n)
class_offset class aligned raw total size low room e =
    elim (Bool-cases (ltb class num_size_classes)) [
      | inl known ↦
          let all : some (class_size class - (raw - raw)) ≡ some total = rw known at e in
          let same : class_size class - (raw - raw) ≡ total = cc in
          (class_size class - (aligned - raw), rw known refl, omega (arith, same, low, room))
      | inr unknown ↦ let nothing_known : none ≡ some total = rw unknown at e in cc
    ]

usable_offset :
    (w : World) (aligned raw total size : ℕ)
    → raw ≤ aligned
    → aligned + size ≤ raw + total
    → usable_block w raw (some raw) ≡ some total
    → (n : ℕ) × (usable_block w aligned (some raw) ≡ some n) × (size ≤ n)
usable_offset w aligned raw total size low room e =
    let h = w.headers (raw - header_size) in
    elim (Bool-cases (h.magic == w.magics.big_magic)) [
      | inl big ↦ rw big (big_offset (w.big_meta raw) aligned raw total size low room (rw big at e))
      | inr small ↦ rw small (class_offset h.class aligned raw total size low room (rw small at e))
    ]

-- `posix_align_inner` of an alignment 2 ^ k of at least 8, in an owned block whose words before it have
-- no tag: an owned pointer that it places is freed just as the block is, and if the usable bytes of the
-- block reach as far as the pointer with `size` bytes, then the pointer has at least `size` usable bytes.
pub posix_align_inner-AsBlock :
    (w : World) (rs_alloc : ℕ → Option ℕ) (memptr k size raw : ℕ)
    → 1 ≤ memptr
    → 3 ≤ k
    → rs_alloc (size + 2 ^ k + tag_size) ≡ some raw
    → tag_size ≤ raw
    → raw + (size + 2 ^ k + tag_size) < 2 ^ 64
    → w.is_owned raw ≡ some true
    → w.words (raw - tag_size) ≢ w.align_tag
    → AsBlock w size raw (posix_align_inner rs_alloc w.align_tag w.words memptr (2 ^ k) size)
unfolding rs_free usable_size
posix_align_inner-AsBlock w rs_alloc memptr k size raw hm hk e far fits own no_tag =
    let owned = λ (a : ℕ). holds (w.is_owned a) in
    let own' : owned raw ≡ true = ap holds own in
    let p =
      posix_align_inner-Inside owned rs_alloc w.align_tag w.words memptr k size raw hm hk e fits
        own' in
    let w' = writes w p.after in
    let back : original_of w' p.aligned ≡ some raw = p.back in
    let untouched : p.after (raw - tag_size) ≢ w.align_tag = λ tagged.
      let same : p.after (raw - tag_size) ≡ w.words (raw - tag_size) =
        p.kept (raw - tag_size) ∙ ground (arith, p.low, far) in
      no_tag (sym same ∙ tagged) in
    let there : (p.aligned == 0) ≡ false = ground (arith, p.low) in
    let raw_there : (raw == 0) ≡ false = ground (arith, far) in
    let self : original_of w' raw ≡ some raw = untagged w' raw untouched in
    record {
      aligned = p.aligned;
      after = p.after;
      result = p.result;
      freed = λ own_aligned. rw (there, raw_there, own_aligned, own, back, self) refl;
      usable = λ total own_aligned known room.
          rw (own_aligned, back)
            (usable_offset w' p.aligned raw total size (omega (arith, p.low)) room
              (rw (own, self) at known));
    }
