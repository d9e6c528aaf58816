-- ===== src/Slab/Dry.antt =====
-- The loops of `first_nonempty_cpu_in_range`: blocks of one CPU, or nothing, and then every other CPU of
-- the range has an empty normal list, and an empty trimmed list if it is marked.
use rsmalloc.Common.{
  ℕ, zero, suc, ◌+◌, ◌-◌, ◌*◌, ◌/◌, ◌≤◌, ◌<◌, ◌≡◌, ◌⊎◌, refl, Bool, true, false, not, ◌&&◌, ◌||◌,
  Option, none, some, List, [], ◌∷◌, leb, ltb, ◌==◌, if◌then◌else◌, Bool-cases, inl, inr, arith,
}
use rsmalloc.Slab.{ClassCache}
use rsmalloc.Slab.Transfer.{transfer_pop_batch}
use rsmalloc.Slab.Marked.{Marked}
use rsmalloc.Slab.Batch.{Popped, transfer_pop_batch-Popped}
use rsmalloc.Slab.Searched.{Result, Result-or_else, Result-imp, Popped-Result, unmarked-Dry}
use rsmalloc.Slab.Steal.{
  set_being_stolen, set_bits, victims, steal_from, steal_round, steal_word, steal_words,
  first_nonempty_cpu_in_range,
}

abbrev elem : ℕ → List ℕ → Bool
elem c [] = false
elem c (x ∷ xs) = if x == c then true else elem c xs

-- The victims that a round tries: all but the own CPU, by force.
abbrev Tried : Bool → ℕ → List ℕ → ℕ → Type 0
Tried force_steal cpu_id vs c = (force_steal ≡ true) × ((c == cpu_id) ≡ false) × (elem c vs ≡ true)

Tried-skip :
    (force_steal stolen : Bool) (cpu_id v : ℕ) (vs : List ℕ) (c : ℕ)
    → ((v == cpu_id) || (stolen && not force_steal)) ≡ true
    → Tried force_steal cpu_id (v ∷ vs) c
    → Tried force_steal cpu_id vs c
Tried-skip force_steal stolen cpu_id v vs c skip (by_force, other, in_list) = (
  by_force,
  other,
  elim (Bool-cases (v == c)) [
    | inl same ↦ absurd (ground (arith, skip, by_force, other, same))
    | inr e ↦ ground (arith, in_list, e)
  ],
)

Tried-cover :
    (force_steal : Bool) (cpu_id v : ℕ) (vs : List ℕ) (c : ℕ)
    → Tried force_steal cpu_id (v ∷ vs) c
    → (v ≡ c) ⊎ Tried force_steal cpu_id vs c
Tried-cover force_steal cpu_id v vs c (by_force, other, in_list) = elim (Bool-cases (v == c)) [
  | inl same ↦ inl (ground (arith, same))
  | inr e ↦ inr (by_force, other, ground (arith, in_list, e))
]

steal_from-Result :
    (force_steal : Bool) (cpu_id batch_size : ℕ) (s : ClassCache) (vs : List ℕ)
    → Marked s
    → Result
        (Tried force_steal cpu_id vs)
        s.cpu
        s.nonempty
        (steal_from force_steal cpu_id batch_size s vs)
unfolding steal_from
steal_from-Result force_steal cpu_id batch_size s [] h =
    (h, refl, λ c marked. inl marked, λ c t. ground (arith, t.2))
steal_from-Result force_steal cpu_id batch_size s (v ∷ vs) h =
    elim (Bool-cases ((v == cpu_id) || (s.being_stolen v && not force_steal))) [
      | inl skip ↦
          rw (steal_from, skip)
            (Result-imp (Tried force_steal cpu_id vs) (Tried force_steal cpu_id (v ∷ vs)) s.cpu
              s.nonempty (steal_from force_steal cpu_id batch_size s vs)
              (λ c. Tried-skip force_steal (s.being_stolen v) cpu_id v vs c skip)
              (steal_from-Result force_steal cpu_id batch_size s vs h))
      | inr tried ↦
          rw (steal_from, tried)
            (go
              (λ (s' : ClassCache) (m : Marked s').
                steal_from-Result force_steal cpu_id batch_size s' vs m)
              (transfer_pop_batch (set_being_stolen s v true) v batch_size)
              (transfer_pop_batch-Popped (set_being_stolen s v true) v batch_size h))
    ]
  where
    go :
        ((s' : ClassCache)
          → Marked s'
          → Result
              (Tried force_steal cpu_id vs)
              s'.cpu
              s'.nonempty
              (steal_from force_steal cpu_id batch_size s' vs))
        → (r : Option (List ℕ) × ClassCache) → Popped (set_being_stolen s v true) v r
        → Result (Tried force_steal cpu_id (v ∷ vs)) s.cpu s.nonempty (elim r.0 [
          | some blocks ↦ (some blocks, set_being_stolen r.1 v false)
          | none ↦ steal_from force_steal cpu_id batch_size (set_being_stolen r.1 v false) vs
        ])
    go later (some blocks, p) popped = popped
    go later (none, p) popped =
        Result-or_else (λ c. v ≡ c) (Tried force_steal cpu_id vs)
          (Tried force_steal cpu_id (v ∷ vs)) s.cpu s.nonempty (none, p)
          (λ t. steal_from force_steal cpu_id batch_size (set_being_stolen t v false) vs)
          (Tried-cover force_steal cpu_id v vs)
          (Popped-Result (set_being_stolen s v true) v (none, p) popped)
          (λ t m. later (set_being_stolen t v false) m)

-- `set_bits` lists the set bits.
elem-set_bits :
    (bit : ℕ → Bool) (n first c : ℕ)
    → first ≤ c
    → c < first + n
    → bit c ≡ true
    → elem c (set_bits bit n first) ≡ true
unfolding set_bits
elem-set_bits bit zero first c low high b = absurd (omega arith)
elem-set_bits bit (suc n) first c low high b = elim (Bool-cases (first == c)) [
  | inl same ↦
      let here : first ≡ c = ground (arith, same) in
      let set : bit first ≡ true = rw here b in rw (set_bits, set, same) refl
  | inr other ↦
      let rest = elem-set_bits bit n (first + 1) c (ground (arith, other)) (omega arith) b in
      elim (Bool-cases (bit first)) [
        | inl set ↦ rw (set_bits, set, other) rest
        | inr clear ↦ rw (set_bits, clear) rest
      ]
]

-- The CPUs of a word that are in the range, but for the own one.
abbrev InWord : (cpu_id start end word_idx : ℕ) → ℕ → Type 0
InWord cpu_id start end word_idx c =
    ((c == cpu_id) ≡ false)
    × (start ≤ c)
    × (c ≤ end)
    × (word_idx * 64 ≤ c)
    × (c < word_idx * 64 + 64)

-- The round by force tries each CPU that is marked.
forced-Result :
    (cpu_id start end word_idx : ℕ) (s : ClassCache) (r : Option (List ℕ) × ClassCache)
    → Marked s
    → Result (Tried true cpu_id (victims s word_idx start end)) s.cpu s.nonempty r
    → Result (InWord cpu_id start end word_idx) s.cpu s.nonempty r
forced-Result cpu_id start end word_idx s (some blocks, after) m h = h
forced-Result cpu_id start end word_idx s (none, after) m (marked, same, hints, dry) = (
  marked,
  same,
  hints,
  λ c w. elim (Bool-cases (s.nonempty c)) [
    | inl set_here ↦
        let set : (s.nonempty c && (leb start c && leb c end)) ≡ true =
          ground (arith, set_here, w.1, w.2) in
        dry c (
          refl,
          w.0,
          elem-set_bits (λ cpu. s.nonempty cpu && (leb start cpu && leb cpu end)) 64 (word_idx * 64)
              c w.3 w.4 set,
        )
    | inr clear ↦ unmarked-Dry s c m clear
  ],
)

steal_word-Result :
    (cpu_id batch_size start end word_idx : ℕ) (s : ClassCache)
    → Marked s
    → Result
        (InWord cpu_id start end word_idx)
        s.cpu
        s.nonempty
        (steal_word cpu_id batch_size start end word_idx s)
unfolding steal_word
steal_word-Result cpu_id batch_size start end word_idx s h =
    let vs = victims s word_idx start end in
    Result-or_else (Tried false cpu_id vs) (InWord cpu_id start end word_idx)
      (InWord cpu_id start end word_idx) s.cpu s.nonempty (steal_from false cpu_id batch_size s vs)
      (steal_round true cpu_id batch_size start end word_idx) (λ c w. inr w)
      (steal_from-Result false cpu_id batch_size s vs h)
      (λ s' m.
        forced-Result cpu_id start end word_idx s'
          (steal_round true cpu_id batch_size start end word_idx s') m
          (steal_from-Result true cpu_id batch_size s' (victims s' word_idx start end) m))

abbrev InWords : (cpu_id start end word_idx count : ℕ) → ℕ → Type 0
InWords cpu_id start end word_idx count c =
    ((c == cpu_id) ≡ false)
    × (start ≤ c)
    × (c ≤ end)
    × (word_idx * 64 ≤ c)
    × (c < (word_idx + count) * 64)

InWords-cover :
    (cpu_id start end word_idx count c : ℕ)
    → InWords cpu_id start end word_idx (suc count) c
    → InWord cpu_id start end word_idx c ⊎ InWords cpu_id start end (word_idx + 1) count c
InWords-cover cpu_id start end word_idx count c (other, low, high, from, to) =
    elim (Bool-cases (ltb c (word_idx * 64 + 64))) [
      | inl e ↦ inl (other, low, high, from, ground (arith, e))
      | inr e ↦
          let past : word_idx * 64 + 64 ≤ c = ground (arith, e) in
          inr (other, low, high, omega arith, omega arith)
    ]

steal_words-Result :
    (count word_idx cpu_id batch_size start end : ℕ) (s : ClassCache)
    → Marked s
    → Result
        (InWords cpu_id start end word_idx count)
        s.cpu
        s.nonempty
        (steal_words count word_idx cpu_id batch_size start end s)
unfolding steal_words
steal_words-Result zero word_idx cpu_id batch_size start end s h =
    (h, refl, λ c marked. inl marked, λ c w. absurd (omega (arith, w.3, w.4)))
steal_words-Result (suc count) word_idx cpu_id batch_size start end s h =
    Result-or_else (InWord cpu_id start end word_idx)
      (InWords cpu_id start end (word_idx + 1) count)
      (InWords cpu_id start end word_idx (suc count)) s.cpu s.nonempty
      (steal_word cpu_id batch_size start end word_idx s)
      (steal_words count (word_idx + 1) cpu_id batch_size start end)
      (InWords-cover cpu_id start end word_idx count)
      (steal_word-Result cpu_id batch_size start end word_idx s h)
      (λ s' m. steal_words-Result count (word_idx + 1) cpu_id batch_size start end s' m)

-- The CPUs of a range but for the own one.
abbrev pub InRange : (cpu_id start end : ℕ) → ℕ → Type 0
InRange cpu_id start end c = ((c == cpu_id) ≡ false) × (start ≤ c) × (c ≤ end)

pub first_nonempty_cpu_in_range-Result :
    (cpu_id batch_size start end : ℕ) (s : ClassCache)
    → Marked s
    → Result
        (InRange cpu_id start end)
        s.cpu
        s.nonempty
        (first_nonempty_cpu_in_range cpu_id batch_size start end s)
unfolding first_nonempty_cpu_in_range
first_nonempty_cpu_in_range-Result cpu_id batch_size start end s h =
    let count = end / 64 + 1 - start / 64 in
    Result-imp (InWords cpu_id start end (start / 64) count) (InRange cpu_id start end) s.cpu
      s.nonempty (steal_words count (start / 64) cpu_id batch_size start end s)
      (λ c (other, low, high). (other, low, high, omega arith, omega arith))
      (steal_words-Result count (start / 64) cpu_id batch_size start end s h)
