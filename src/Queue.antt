-- ===== src/Queue.antt =====
-- The report queue of manyfaced/handlers/report_queue.py, as a step relation: a bounded FIFO queue, its
-- worker threads, each before its loop test, in `get`, in a task or gone, and the liveness flag. The
-- steps interleave in any order. The gauges and the second queue after a shutdown are left out.
pub mod Soundness
pub mod Draining
use manyfaced_honeypot.Base.{
  ℕ, zero, suc, ◌+◌, ◌<◌, Bool, true, false, not, ◌||◌, List, [], ◌∷◌, ◌++◌, ◌≡◌, is_empty, length,
}

abbrev pub max_report_threads : ℕ
max_report_threads = 10

abbrev pub max_size : ℕ
max_size = 100

module _ (A : Type 0) where
  pub record QueueState : Type 0 where
    pub pending : List A
    -- workers before the test of the loop, and in `q.get(timeout=1)`
    pub at_test : ℕ
    pub in_get : ℕ
    pub running : List A
    pub exited : ℕ
    pub finished : List A
    pub alive : Bool

  -- `_get_report_queue` on its first call
  abbrev pub new_queue : QueueState
  new_queue = record {
    pending = [];
    at_test = max_report_threads;
    in_get = 0;
    running = [];
    exited = 0;
    finished = [];
    alive = true;
  }

module _ {A : Type 0} where
  -- a step of one worker in `_report_worker`
  pub data WorkerStep : QueueState A → QueueState A → Type 0 where
    enter :
        (s : QueueState A) (n : ℕ)
        → s.at_test ≡ suc n
        → (s.alive || not (is_empty s.pending)) ≡ true
        → WorkerStep s (record s { at_test = n; in_get = suc s.in_get })
    leave :
        (s : QueueState A) (n : ℕ)
        → s.at_test ≡ suc n
        → (s.alive || not (is_empty s.pending)) ≡ false
        → WorkerStep s (record s { at_test = n; exited = suc s.exited })
    get :
        (s : QueueState A) (n : ℕ) (x : A) (rest : List A)
        → s.in_get ≡ suc n
        → s.pending ≡ x ∷ rest
        → WorkerStep s (record s { pending = rest; in_get = n; running = x ∷ s.running })
    -- `queue.Empty` after a second
    time_out :
        (s : QueueState A) (n : ℕ)
        → s.in_get ≡ suc n
        → s.pending ≡ []
        → WorkerStep s (record s { at_test = suc s.at_test; in_get = n })
    -- The task returned or raised, and `task_done` was called.
    finish :
        (s : QueueState A) (before : List A) (x : A) (after : List A)
        → s.running ≡ before ++ x ∷ after
        → WorkerStep s (record s {
          at_test = suc s.at_test;
          running = before ++ after;
          finished = x ∷ s.finished;
        })

  -- The states of a run, with all that was put: a worker steps, a `put` finds room, or the shutdown
  -- begins.
  pub data Reachable : List A → QueueState A → Type 0 where
    start : Reachable [] (new_queue A)
    worked :
        (put : List A) (s t : QueueState A) → Reachable put s → WorkerStep s t → Reachable put t
    was_put :
        (put : List A) (s : QueueState A) (x : A)
        → Reachable put s
        → length s.pending < max_size
        → Reachable (x ∷ put) (record s { pending = s.pending ++ x ∷ [] })
    was_shut_down :
        (put : List A) (s : QueueState A)
        → Reachable put s
        → s.alive ≡ true
        → Reachable put (record s { alive = false })
