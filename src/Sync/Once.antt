-- ===== src/Sync/Once.antt =====
-- `Once`: the function runs once, and no call returns before it has run.
use rsmalloc.Common.{
  ℕ, suc, ◌≤◌, Bool, true, false, ◌≡◌, refl, ◌==◌, ◌&&◌, update, if◌then◌else◌, arith, Bool-cases,
  inl, inr,
}
use rsmalloc.Sync.{exchange_number}

-- Where a thread is: outside, before the exchange of `start`, in the function, in the loop that
-- waits, or back from `call_once`.
pub data Phase : Type 0 where
  outside : Phase
  entering : Phase
  running : Phase
  waiting : Phase
  returned : Phase

-- `Once`, its threads, and how often the function has run to its end.
pub record System : Type 0 where
  pub state : ℕ
  pub phase : ℕ → Phase
  pub runs : ℕ

abbrev pub start : System
start = record { state = 0; phase = λ t. outside; runs = 0 }

-- `call_once` up to the first load
unfoldable pub call_once : System → ℕ → System
call_once s t = record s { phase = update s.phase t (if s.state == 2 then returned else entering) }

-- The exchange of `start`.
unfoldable pub begin : System → ℕ → System
begin s t =
    let (ok, state) = exchange_number s.state 0 1 in
    record s { state = state; phase = update s.phase t (if ok then running else waiting) }

-- The function returns, and the state is set to 2.
unfoldable pub finish : System → ℕ → System
finish s t = record { state = 2; phase = update s.phase t waiting; runs = suc s.runs }

-- One round of the loop that waits.
unfoldable pub wait : System → ℕ → System
wait s t = record s { phase = update s.phase t (if s.state == 2 then returned else waiting) }

pub data Step : System → System → Type 0 where
  calls : (s : System) (t : ℕ) → s.phase t ≡ outside → Step s (call_once s t)
  begins : (s : System) (t : ℕ) → s.phase t ≡ entering → Step s (begin s t)
  finishes : (s : System) (t : ℕ) → s.phase t ≡ running → Step s (finish s t)
  waits : (s : System) (t : ℕ) → s.phase t ≡ waiting → Step s (wait s t)

pub data Reachable : System → Type 0 where
  starts : Reachable start
  steps : {s s' : System} → Reachable s → Step s s' → Reachable s'

abbrev is_running : Phase → Bool
is_running running = true
is_running _ = false

abbrev pub is_returned : Phase → Bool
is_returned returned = true
is_returned _ = false

-- The state, the number of runs and the phases fit: the runner is the one thread in the function.
record Fits (s : System) (runner : ℕ) : Type 0 where
  bound : s.state ≤ 2
  counted : s.runs ≡ (if s.state == 2 then 1 else 0)
  runs_in : (t : ℕ) → is_running (s.phase t) ≡ ((s.state == 1) && (t == runner))
  back : (t : ℕ) → is_returned (s.phase t) ≡ (is_returned (s.phase t) && (s.state == 2))

running-update :
    (phase : ℕ → Phase) (t : ℕ) (x : Phase) (u : ℕ)
    → is_running (update phase t x u) ≡ (if t == u then is_running x else is_running (phase u))
running-update phase t x u = elim (Bool-cases (t == u)) [ inl e ↦ rw e | inr e ↦ rw e ]

returned-update :
    (phase : ℕ → Phase) (t : ℕ) (x : Phase) (u : ℕ)
    → is_returned (update phase t x u) ≡ (if t == u then is_returned x else is_returned (phase u))
returned-update phase t x u = elim (Bool-cases (t == u)) [ inl e ↦ rw e | inr e ↦ rw e ]

call-Fits :
    (s : System) (t runner : ℕ) → s.phase t ≡ outside → Fits s runner → Fits (call_once s t) runner
unfolding call_once
call-Fits s t runner h f = record {
  bound = f.bound;
  counted = f.counted;
  runs_in = λ u.
      let idle : is_running (s.phase t) ≡ false = rw h in
      elim (Bool-cases (s.state == 2)) [
        | inl e ↦
            rw (e, running-update s.phase t returned u)
              (ground (arith, f.runs_in t, f.runs_in u, idle))
        | inr e ↦
            rw (e, running-update s.phase t entering u)
              (ground (arith, f.runs_in t, f.runs_in u, idle))
      ];
  back = λ u. elim (Bool-cases (s.state == 2)) [
    | inl e ↦ rw (e, returned-update s.phase t returned u) (ground (arith, f.back u, e))
    | inr e ↦ rw (e, returned-update s.phase t entering u) (ground (arith, f.back u, e))
  ];
}

begin-Fits :
    (s : System) (t runner : ℕ)
    → s.phase t ≡ entering
    → Fits s runner
    → Fits (begin s t) (if s.state == 0 then t else runner)
unfolding begin
begin-Fits s t runner h f = elim (Bool-cases (s.state == 0)) [
  | inl e ↦ rw e (record {
    bound = omega arith;
    counted = ground (arith, f.counted, e);
    runs_in = λ u. rw (running-update s.phase t running u) (ground (arith, f.runs_in u, e));
    back = λ u. rw (returned-update s.phase t running u) (ground (arith, f.back u, e));
  })
  | inr e ↦
      let idle : is_running (s.phase t) ≡ false = rw h in
      rw e (record {
        bound = f.bound;
        counted = f.counted;
        runs_in = λ u.
            rw (running-update s.phase t waiting u)
              (ground (arith, f.runs_in t, f.runs_in u, idle));
        back = λ u. rw (returned-update s.phase t waiting u) (ground (arith, f.back u));
      })
]

finish-Fits :
    (s : System) (t runner : ℕ) → s.phase t ≡ running → Fits s runner → Fits (finish s t) runner
unfolding finish
finish-Fits s t runner h f =
    let here : is_running (s.phase t) ≡ true = rw h in
    record {
      bound = omega arith;
      counted = ground (arith, f.counted, f.runs_in t, here);
      runs_in = λ u.
          rw (running-update s.phase t waiting u) (ground (arith, f.runs_in t, f.runs_in u, here));
      back = λ u. rw (returned-update s.phase t waiting u) (ground (arith, f.back u));
    }

wait-Fits :
    (s : System) (t runner : ℕ) → s.phase t ≡ waiting → Fits s runner → Fits (wait s t) runner
unfolding wait
wait-Fits s t runner h f = record {
  bound = f.bound;
  counted = f.counted;
  runs_in = λ u.
      let idle : is_running (s.phase t) ≡ false = rw h in
      elim (Bool-cases (s.state == 2)) [
        | inl e ↦
            rw (e, running-update s.phase t returned u)
              (ground (arith, f.runs_in t, f.runs_in u, idle))
        | inr e ↦
            rw (e, running-update s.phase t waiting u)
              (ground (arith, f.runs_in t, f.runs_in u, idle))
      ];
  back = λ u. elim (Bool-cases (s.state == 2)) [
    | inl e ↦ rw (e, returned-update s.phase t returned u) (ground (arith, f.back u, e))
    | inr e ↦ rw (e, returned-update s.phase t waiting u) (ground (arith, f.back u, e))
  ];
}

Step-Fits : {s s' : System} (runner : ℕ) → Fits s runner → Step s s' → (next : ℕ) × Fits s' next
Step-Fits runner f (calls s t h) = (runner, call-Fits s t runner h f)
Step-Fits runner f (begins s t h) = (if s.state == 0 then t else runner, begin-Fits s t runner h f)
Step-Fits runner f (finishes s t h) = (runner, finish-Fits s t runner h f)
Step-Fits runner f (waits s t h) = (runner, wait-Fits s t runner h f)

Reachable-Fits : {s : System} → Reachable s → (runner : ℕ) × Fits s runner
Reachable-Fits starts =
    (0, record { bound = omega arith; counted = refl; runs_in = λ t. refl; back = λ t. refl })
Reachable-Fits (steps r st) = let (runner, f) = Reachable-Fits r in Step-Fits runner f st

-- In every reachable state the function has run at most once, and where some thread is back from
-- `call_once` it has run once, to its end.
pub runs_once :
    {s : System} (t : ℕ)
    → Reachable s
    → (s.runs ≤ 1) × ((if is_returned (s.phase t) then s.runs else 1) ≡ 1)
runs_once {s} t r =
    let (runner, f) = Reachable-Fits r in
    (ground (arith, f.counted), ground (arith, f.counted, f.back t))

-- In every reachable state two threads that are in the function are one thread, and while one is in
-- it the function has not run before.
pub runner_alone :
    {s : System} (t u : ℕ)
    → Reachable s
    → s.phase t ≡ running
    → s.phase u ≡ running
    → (t ≡ u) × (s.runs ≡ 0)
runner_alone {s} t u r ht hu =
    let (runner, f) = Reachable-Fits r in
    let at : is_running (s.phase t) ≡ true = rw ht in
    let au : is_running (s.phase u) ≡ true = rw hu in
    ground (arith, f.runs_in t, f.runs_in u, f.counted, at, au)
