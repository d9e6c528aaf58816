-- ===== src/Sync/Lock.antt =====
-- `SpinLock`: at most one thread holds the guard, and a thread gets it whenever no thread holds it.
use rsmalloc.Common.{
  ℕ, Bool, true, false, ◌≡◌, ◌≢◌, ◌↔◌, refl, sym, ◌∙◌, ◌==◌, ◌&&◌, update, if◌then◌else◌, arith,
  Bool-cases, inl, inr,
}
use rsmalloc.Sync.{exchange_flag}

-- Where a thread is: outside, in the loop of `lock`, or with a `LockGuard`.
pub data Phase : Type 0 where
  outside : Phase
  spinning : Phase
  holding : Phase

-- `SpinLock`, and its threads.
pub record System : Type 0 where
  pub state : Bool
  pub phase : ℕ → Phase

abbrev pub start : System
start = record { state = false; phase = λ t. outside }

-- A thread calls `lock`.
unfoldable pub enter : System → ℕ → System
enter s t = record s { phase = update s.phase t spinning }

-- One round of the loop of `lock`.
unfoldable pub attempt : System → ℕ → System
attempt s t =
    let (ok, state) = exchange_flag s.state false true in
    record { state = state; phase = if ok then update s.phase t holding else s.phase }

-- `try_lock`
unfoldable pub try_lock : System → ℕ → System
try_lock s t =
    let (ok, state) = exchange_flag s.state false true in
    record { state = state; phase = if ok then update s.phase t holding else s.phase }

-- The guard is dropped.
unfoldable pub unlock : System → ℕ → System
unlock s t = record { state = false; phase = update s.phase t outside }

pub data Step : System → System → Type 0 where
  enters : (s : System) (t : ℕ) → s.phase t ≡ outside → Step s (enter s t)
  attempts : (s : System) (t : ℕ) → s.phase t ≡ spinning → Step s (attempt s t)
  tries : (s : System) (t : ℕ) → s.phase t ≡ outside → Step s (try_lock s t)
  unlocks : (s : System) (t : ℕ) → s.phase t ≡ holding → Step s (unlock s t)

pub data Reachable : System → Type 0 where
  starts : Reachable start
  steps : {s s' : System} → Reachable s → Step s s' → Reachable s'

abbrev pub holds : Phase → Bool
holds outside = false
holds spinning = false
holds holding = true

-- The thread that holds the guard, if the state is set, is one thread, the owner.
abbrev Owned : System → ℕ → Type 0
Owned s owner = (t : ℕ) → holds (s.phase t) ≡ (s.state && (t == owner))

holds-update :
    (phase : ℕ → Phase) (t : ℕ) (x : Phase) (u : ℕ)
    → holds (update phase t x u) ≡ (if t == u then holds x else holds (phase u))
holds-update phase t x u = elim (Bool-cases (t == u)) [ inl e ↦ rw e | inr e ↦ rw e ]

enter-Owned :
    (s : System) (t owner : ℕ) → s.phase t ≡ outside → Owned s owner → Owned (enter s t) owner
unfolding enter
enter-Owned s t owner h o u =
    let idle : holds (s.phase t) ≡ false = rw h in
    rw (holds-update s.phase t spinning u) (ground (arith, o t, o u, idle))

take-Owned :
    (s : System) (t owner : ℕ) → Owned s owner → Owned (attempt s t) (if s.state then owner else t)
unfolding attempt
take-Owned s t owner o u = elim (Bool-cases s.state) [
  | inl on ↦ rw on (ground (arith, o u, on))
  | inr off ↦ rw (off, holds-update s.phase t holding u) (ground (arith, o u, off))
]

unlock-Owned :
    (s : System) (t owner : ℕ) → s.phase t ≡ holding → Owned s owner → Owned (unlock s t) owner
unfolding unlock
unlock-Owned s t owner h o u =
    let held : holds (s.phase t) ≡ true = rw h in
    rw (holds-update s.phase t outside u) (ground (arith, o t, o u, held))

Step-Owned : {s s' : System} (owner : ℕ) → Owned s owner → Step s s' → (next : ℕ) × Owned s' next
Step-Owned owner o (enters s t h) = (owner, enter-Owned s t owner h o)
Step-Owned owner o (attempts s t h) = (if s.state then owner else t, take-Owned s t owner o)
Step-Owned owner o (tries s t h) =
    (if s.state then owner else t, unfold attempt try_lock in take-Owned s t owner o)
Step-Owned owner o (unlocks s t h) = (owner, unlock-Owned s t owner h o)

Reachable-Owned : {s : System} → Reachable s → (owner : ℕ) × Owned s owner
Reachable-Owned starts = (0, λ t. refl)
Reachable-Owned (steps r st) = let (owner, o) = Reachable-Owned r in Step-Owned owner o st

holds_holding : (x : Phase) → holds x ≡ true → x ≡ holding
holds_holding outside h = cc
holds_holding spinning h = cc
holds_holding holding h = refl

-- In every reachable state two threads that hold the guard are one thread.
pub mutual_exclusion :
    {s : System} (t u : ℕ) → Reachable s → s.phase t ≡ holding → s.phase u ≡ holding → t ≡ u
mutual_exclusion {s} t u r ht hu =
    let (owner, o) = Reachable-Owned r in
    let at : holds (s.phase t) ≡ true = rw ht in
    let au : holds (s.phase u) ≡ true = rw hu in ground (arith, o t, o u, at, au)

-- In every reachable state a round of the loop of `lock` gives the guard to a thread that does not
-- hold it exactly if no thread holds it.
pub attempt_succeeds :
    {s : System} (t : ℕ)
    → Reachable s
    → s.phase t ≢ holding
    → ((attempt s t).phase t ≡ holding) ↔ ((u : ℕ) → s.phase u ≢ holding)
unfolding attempt
attempt_succeeds {s} t r other =
    let (owner, o) = Reachable-Owned r in
    let own : (owner == owner) ≡ true = ground arith in
    let here : (t == t) ≡ true = ground arith in
    elim (Bool-cases s.state) [
      | inl on ↦
          let held : s.phase owner ≡ holding =
            holds_holding (s.phase owner) (o owner ∙ rw (on, own)) in
          rw on (λ got. absurd (other got), λ nobody. absurd (nobody owner held))
      | inr off ↦
          rw (off, here)
            (
              λ _ u hu.
                  let yes : holds (s.phase u) ≡ true = rw hu in
                  let no : holds (s.phase u) ≡ false = o u ∙ rw off in
                  let clash : true ≡ false = sym yes ∙ no in cc,
              λ _. refl,
            )
    ]
