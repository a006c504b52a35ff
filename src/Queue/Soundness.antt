-- ===== src/Queue/Soundness.antt =====
-- The report queue of manyfaced/handlers/report_queue.py loses no task and no thread.
use manyfaced_honeypot.Base.{
  ℕ, ◌+◌, ◌≤◌, Bool, false, List, [], ◌∷◌, ◌++◌, ◌≡◌, ◌⊎◌, inl, inr, refl, ap, ◌∙◌, arith, length,
  length-append, if◌then◌else◌,
}
use manyfaced_honeypot.Queue.{
  QueueState, WorkerStep, enter, leave, get, time_out, finish, Reachable, start, worked, was_put,
  was_shut_down,
}

module _ {A : Type 0} where
  abbrev pub count_of : (A → Bool) → List A → ℕ
  count_of p [] = 0
  count_of p (x ∷ l) = (if p x then 1 else 0) + count_of p l

  count_of-append :
      (p : A → Bool) (l m : List A) → count_of p (l ++ m) ≡ count_of p l + count_of p m
  count_of-append p [] m = omega arith
  count_of-append p (x ∷ l) m = omega (arith, count_of-append p l m)

  -- All tasks with a property, wherever they are, and all threads.
  abbrev pub tasks : (A → Bool) → QueueState A → ℕ
  tasks p s = count_of p s.pending + count_of p s.running + count_of p s.finished

  abbrev pub threads : QueueState A → ℕ
  threads s = s.at_test + s.in_get + length s.running + s.exited

  pub tasks-step : (p : A → Bool) (s t : QueueState A) → WorkerStep s t → tasks p t ≡ tasks p s
  tasks-step p s _ (enter _ n e h) = refl
  tasks-step p s _ (leave _ n e h) = refl
  tasks-step p s _ (get _ n x rest e h) = omega (arith, ap (count_of p) h)
  tasks-step p s _ (time_out _ n e h) = refl
  tasks-step p s _ (finish _ before x after h) = omega (
    arith,
    ap (count_of p) h,
    count_of-append p before (x ∷ after),
    count_of-append p before after,
  )

  pub threads-step : (s t : QueueState A) → WorkerStep s t → threads t ≡ threads s
  threads-step s _ (enter _ n e h) = omega (arith, e)
  threads-step s _ (leave _ n e h) = omega (arith, e)
  threads-step s _ (get _ n x rest e h) = omega (arith, e)
  threads-step s _ (time_out _ n e h) = omega (arith, e)
  threads-step s _ (finish _ before x after h) =
      omega (arith, ap length h, length-append before (x ∷ after), length-append before after)

  -- No worker leaves before the shutdown.
  abbrev pub KeepsWorkers : QueueState A → Type 0
  KeepsWorkers s = (s.alive ≡ false) ⊎ (s.exited ≡ 0)

  KeepsWorkers-step : (s t : QueueState A) → WorkerStep s t → KeepsWorkers s → KeepsWorkers t
  KeepsWorkers-step s _ (enter _ n e h) k = k
  KeepsWorkers-step s _ (leave _ n e h) k = inl (ground arith)
  KeepsWorkers-step s _ (get _ n x rest e h) k = k
  KeepsWorkers-step s _ (time_out _ n e h) k = k
  KeepsWorkers-step s _ (finish _ before x after h) k = k

  pending-step : (s t : QueueState A) → WorkerStep s t → length t.pending ≤ length s.pending
  pending-step s _ (enter _ n e h) = omega arith
  pending-step s _ (leave _ n e h) = omega arith
  pending-step s _ (get _ n x rest e h) = omega (arith, ap length h)
  pending-step s _ (time_out _ n e h) = omega arith
  pending-step s _ (finish _ before x after h) = omega arith

  pub record IsSound (p : A → Bool) (put : List A) (s : QueueState A) : Type 0 where
    pub tasks_kept : tasks p s ≡ count_of p put
    pub threads_kept : threads s ≡ 10
    pub bounded : length s.pending ≤ 100
    pub workers_kept : KeepsWorkers s

  -- In every state of every run, the tasks that wait, run or are finished are the tasks that were
  -- put, counted by any test; the ten threads are all accounted for, at most 100 tasks wait, and no
  -- worker has left unless the shutdown has begun.
  pub Reachable-IsSound :
      (p : A → Bool) (put : List A) (s : QueueState A) → Reachable put s → IsSound p put s
  Reachable-IsSound p _ _ start = record {
    tasks_kept = refl;
    threads_kept = refl;
    bounded = omega arith;
    workers_kept = inr refl;
  }
  Reachable-IsSound p put t (worked _ s _ r w) =
      let i = Reachable-IsSound p put s r in
      record {
        tasks_kept = tasks-step p s t w ∙ i.tasks_kept;
        threads_kept = threads-step s t w ∙ i.threads_kept;
        bounded = omega (arith, pending-step s t w, i.bounded);
        workers_kept = KeepsWorkers-step s t w i.workers_kept;
      }
  Reachable-IsSound p _ _ (was_put put s x r room) =
      let i = Reachable-IsSound p put s r in
      record {
        tasks_kept = omega (arith, i.tasks_kept, count_of-append p s.pending (x ∷ []));
        threads_kept = i.threads_kept;
        bounded = omega (arith, length-append s.pending (x ∷ []), room);
        workers_kept = i.workers_kept;
      }
  Reachable-IsSound p put _ (was_shut_down _ s r h) =
      let i = Reachable-IsSound p put s r in
      record {
        tasks_kept = i.tasks_kept;
        threads_kept = i.threads_kept;
        bounded = i.bounded;
        workers_kept = inl refl;
      }
