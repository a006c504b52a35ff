-- ===== src/Queue/Draining.antt =====
-- A shutdown of the report queue of manyfaced/handlers/report_queue.py drains it.
use manyfaced_honeypot.Base.{
  ℕ, zero, suc, ◌+◌, ◌*◌, ◌≤◌, ◌<◌, Bool, true, false, not, ◌||◌, List, [], ◌∷◌, ◌≡◌, ◌⊎◌, inl, inr,
  refl, ap, ◌∙◌, arith, is_empty, Bool-cases, true_not_false, length, length-append, if◌then◌else◌,
}
use manyfaced_honeypot.Queue.{
  QueueState, WorkerStep, enter, leave, get, time_out, finish, Reachable,
}
use manyfaced_honeypot.Queue.Soundness.{
  count_of, tasks, threads, tasks-step, threads-step, Reachable-IsSound,
}

ℕ-cases : (n : ℕ) → (n ≡ 0) ⊎ ((m : ℕ) × (n ≡ suc m))
ℕ-cases zero = inl refl
ℕ-cases (suc m) = inr (m, refl)

module _ {A : Type 0} where
  -- Worker steps, one after the other.
  pub data Run : ℕ → QueueState A → QueueState A → Type 0 where
    stay : (s : QueueState A) → Run zero s s
    step : (n : ℕ) (s t u : QueueState A) → WorkerStep s t → Run n t u → Run (suc n) s u

  -- The steps that the workers can still make once the flag is down.
  abbrev pub steps_left : QueueState A → ℕ
  steps_left s =
      if is_empty s.pending
      then s.at_test + 2 * s.in_get + 2 * length s.running
      else 5 * length s.pending + 3 * s.at_test + 2 * s.in_get + 4 * length s.running

  steps_left-step :
      (s t : QueueState A)
      → s.alive ≡ false
      → WorkerStep s t
      → (t.alive ≡ false) × (steps_left t < steps_left s)
  steps_left-step s _ down (enter _ n e h) = (down, ground (arith, e))
  steps_left-step s _ down (leave _ n e h) = (down, ground (arith, e))
  steps_left-step s _ down (get _ n x [] e h) = (down, ground (arith, e, h))
  steps_left-step s _ down (get _ n x (y ∷ rest) e h) = (down, ground (arith, e, h))
  steps_left-step s _ down (time_out _ n e h) = (down, ground (arith, e, ap length h))
  steps_left-step s _ down (finish _ before x after h) = (
    down,
    ground (arith, ap length h, length-append before (x ∷ after), length-append before after),
  )

  -- No task waits once a worker has left.
  abbrev LeavesNothing : QueueState A → Type 0
  LeavesNothing s = (s.exited ≡ 0) ⊎ (s.pending ≡ [])

  LeavesNothing-step :
      (s t : QueueState A) → s.alive ≡ false → WorkerStep s t → LeavesNothing s → LeavesNothing t
  LeavesNothing-step s _ down (enter _ n e h) k = k
  LeavesNothing-step s _ down (leave _ n e h) k = inr (nil_of_test s.alive s.pending h)
    where
      nil_of_test : (b : Bool) (l : List A) → (b || not (is_empty l)) ≡ false → l ≡ []
      nil_of_test b [] h = refl
      nil_of_test b (x ∷ l) h = ground arith
  LeavesNothing-step s _ down (get _ n x rest e h) (inl none_left) = inl none_left
  LeavesNothing-step s _ down (get _ n x rest e h) (inr nothing) = ground arith
  LeavesNothing-step s _ down (time_out _ n e h) k = k
  LeavesNothing-step s _ down (finish _ before x after h) k = k

  -- All is done: no task waits or runs, and the ten workers have left.
  pub record IsDrained (s : QueueState A) : Type 0 where
    pub nothing_pending : s.pending ≡ []
    pub nothing_running : s.running ≡ []
    pub all_exited : s.exited ≡ 10

  Run-bounded :
      (n : ℕ) (s t : QueueState A)
      → s.alive ≡ false
      → LeavesNothing s
      → Run n s t
      → (n + steps_left t ≤ steps_left s)
        × (t.alive ≡ false)
        × LeavesNothing t
        × (threads t ≡ threads s)
        × ((p : A → Bool) → tasks p t ≡ tasks p s)
  Run-bounded _ s _ down k (stay _) = (omega arith, down, k, refl, λ p. refl)
  Run-bounded _ s u down k (step n _ t _ w r) =
      let (still, less) = steps_left-step s t down w in
      let (most, last, nothing, same, kept) =
        Run-bounded n t u still (LeavesNothing-step s t down w k) r in
      (
        omega (arith, most, less),
        last,
        nothing,
        same ∙ threads-step s t w,
        λ p. kept p ∙ tasks-step p s t w,
      )

  List-cases : (l : List A) → (l ≡ []) ⊎ ((x : A) × (rest : List A) × (l ≡ x ∷ rest))
  List-cases [] = inl refl
  List-cases (x ∷ rest) = inr (x, rest, refl)

  drained :
      (s : QueueState A)
      → LeavesNothing s
      → threads s ≡ 10
      → s.running ≡ []
      → s.in_get ≡ 0
      → s.at_test ≡ 0
      → IsDrained s
  drained s k total idle none_waits none_tests =
      let all_left : s.exited ≡ 10 = omega (arith, total, ap length idle, none_waits, none_tests) in
      record { nothing_pending = nothing k all_left; nothing_running = idle; all_exited = all_left }
    where
      nothing : LeavesNothing s → s.exited ≡ 10 → s.pending ≡ []
      nothing (inl none_left) all_left = absurd (omega (arith, none_left, all_left))
      nothing (inr empty) all_left = empty

  can_step :
      (s : QueueState A)
      → s.alive ≡ false
      → LeavesNothing s
      → threads s ≡ 10
      → IsDrained s ⊎ ((t : QueueState A) × WorkerStep s t)
  can_step s down k total = elim (List-cases s.running) [
    | inr (x, rest, h) ↦ inr (_, finish s [] x rest h)
    | inl idle ↦ elim (ℕ-cases s.in_get) [
      | inr (n, e) ↦ elim (List-cases s.pending) [
        | inl empty ↦ inr (_, time_out s n e empty)
        | inr (x, rest, h) ↦ inr (_, get s n x rest e h)
      ]
      | inl none_waits ↦ elim (ℕ-cases s.at_test) [
        | inr (n, e) ↦ elim (Bool-cases (s.alive || not (is_empty s.pending))) [
          | inl on ↦ inr (_, enter s n e on)
          | inr off ↦ inr (_, leave s n e off)
        ]
        | inl none_tests ↦ inl (drained s k total idle none_waits none_tests)
      ]
    ]
  ]

  -- From the start of a shutdown in any reachable state, and if nothing more is put, the workers make
  -- at most `steps_left` steps in any order, and as long as a task waits or runs or a worker is
  -- there, some worker can step. When the queue is drained every task that was put is finished.
  pub shut_down-IsDrained :
      (p : A → Bool) (put : List A) (s t : QueueState A) (n : ℕ)
      → Reachable put s
      → s.alive ≡ true
      → Run n (record s { alive = false }) t
      → (n ≤ steps_left s)
        × (((IsDrained t) × (count_of p t.finished ≡ count_of p put))
            ⊎ ((u : QueueState A) × WorkerStep t u))
  shut_down-IsDrained p put s t n r up run =
      let i = Reachable-IsSound p put s r in
      let none_left : s.exited ≡ 0 = elim i.workers_kept [
        | inl down ↦ absurd (true_not_false up down)
        | inr e ↦ e
      ] in
      let (most, down, nothing, same, kept) =
        Run-bounded n (record s { alive = false }) t refl (inl none_left) run in
      (
        omega (arith, most),
        elim (can_step t down nothing (same ∙ i.threads_kept)) [
          | inr further ↦ inr further
          | inl d ↦ inl (
            d,
            omega (
              arith,
              kept p,
              i.tasks_kept,
              ap (count_of p) d.nothing_pending,
              ap (count_of p) d.nothing_running,
            ),
          )
        ],
      )
