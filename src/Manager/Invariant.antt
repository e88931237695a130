-- ===== src/Manager/Invariant.antt =====
-- Every step of the executors and the `TaskManager` (src/task/manager.rs) keeps each executor in one
-- place, and no task waits beside an executor that does.
use hooch.Base.{
  ℕ, Bool, ◌≡◌, ◌≢◌, ◌<◌, inl, inr, refl, none, some, List, [], ◌∷◌, ◌++◌, length, length-append,
  arith, count, count-cons, count-snoc, Below-snoc, length-lt_of_missing, update, done, ok,
}
use hooch.SyncChannel
use hooch.SyncChannel.{SyncChannel}
use hooch.DashMap.{DashMap}
use hooch.Task.{Task}
use hooch.Manager.{Scheduler, ExecutorTask, task, waiting_bound}
use hooch.Manager.Waits.{Waits, IsOpen, Keeps, with_task}
use hooch.Manager.System.{System, Inv}

module _ (D : DashMap ℕ) (n : ℕ) where
  open D use {Map}

  -- An executor that waits can be sent a task.
  pub IsOpen-of_idle :
      (s : System Map) (ws : List Task) (e : ℕ) (is : List ℕ)
      → Inv D n s ws (e ∷ is)
      → IsOpen D s.sched e e
  IsOpen-of_idle s ws e is v = record {
    registered = v.registered e v.below.0;
    receiver = v.receivers e v.below.0;
    room = ground (arith, v.one_place e v.below.0, v.bounds e v.below.0, count-cons e e is);
  }

  -- So can one that polls a task, and then there is room for it among those that wait.
  pub IsOpen-of_running :
      (s : System Map) (ws : List Task) (is : List ℕ) (e : ℕ) (t : Task)
      → Inv D n s ws is
      → e < n
      → s.running e ≡ some t
      → IsOpen D s.sched e e × (length is < waiting_bound)
  IsOpen-of_running s ws is e t v lt at = (
    record {
      registered = v.registered e lt;
      receiver = v.receivers e lt;
      room = ground (arith, v.one_place e lt, v.bounds e lt);
    },
    omega (
      arith,
      v.few,
      length-lt_of_missing n e is v.below (λ a below. omega (arith, v.one_place a below)) lt absent,
    ),
  )
    where
      absent : count e is ≡ 0
      absent = ground (arith, v.one_place e lt)

  -- The flags do not matter to it.
  pub aborts-Inv :
      (s : System Map) (ws : List Task) (is : List ℕ) (aborts : ℕ → Bool)
      → Inv D n s ws is
      → Inv D n (record s { sched = record (s.sched) { aborts = aborts } }) ws is
  aborts-Inv s ws is aborts v = record {
    few = v.few;
    waits = v.waits;
    registered = v.registered;
    receivers = v.receivers;
    bounds = v.bounds;
    below = v.below;
    one_place = v.one_place;
    conserving = v.conserving;
  }

  -- A task goes to the executor that has waited longest.
  pub sent-Inv :
      (s : System Map) (ws : List Task) (e : ℕ) (is : List ℕ) (t : Task) (s' : Scheduler Map)
      → Inv D n s ws (e ∷ is)
      → Keeps D s.sched s'
      → Waits s'.manager ws is
      → s'.channels ≡ update s.sched.channels e (with_task (s.sched.channels e) t)
      → Inv D n (record s { sched = s' }) ws is
  sent-Inv s ws e is t s' v kept waits channels = record {
    few = v.few;
    waits = waits;
    registered = λ a lt. rw (kept.1) (v.registered a lt);
    receivers = λ a lt. rw channels (ground (arith, v.receivers a lt, v.receivers e v.below.0));
    bounds = λ a lt. rw channels (ground (arith, v.bounds a lt, v.bounds e v.below.0));
    below = v.below.1;
    one_place = λ a lt. rw channels (
        ground (
          arith,
          v.one_place a lt,
          count-cons a e is,
          length-append (s.sched.channels e).queue (task t ∷ []),
        ));
    conserving = ground (arith, v.conserving);
  }

  -- A task waits.
  pub queued-Inv :
      (s : System Map) (ws : List Task) (t : Task) (s' : Scheduler Map)
      → Inv D n s ws []
      → Keeps D s.sched s'
      → Waits s'.manager (ws ++ t ∷ []) []
      → s'.channels ≡ s.sched.channels
      → Inv D n (record s { sched = s' }) (ws ++ t ∷ []) []
  queued-Inv s ws t s' v kept waits channels = record {
    few = v.few;
    waits = waits;
    registered = λ a lt. rw (kept.1) (v.registered a lt);
    receivers = λ a lt. rw channels (v.receivers a lt);
    bounds = λ a lt. rw channels (v.bounds a lt);
    below = tt;
    one_place = λ a lt. rw channels (v.one_place a lt);
    conserving = inr refl;
  }

  -- An executor that found no live task waits.
  pub parked-Inv :
      (s : System Map) (ws : List Task) (is : List ℕ) (e : ℕ) (t : Task) (s' : Scheduler Map)
      → Inv D n s ws is
      → e < n
      → s.running e ≡ some t
      → Keeps D s.sched s'
      → Waits s'.manager [] (is ++ e ∷ [])
      → s'.channels ≡ s.sched.channels
      → Inv D n (record { sched = s'; running = update s.running e none }) [] (is ++ e ∷ [])
  parked-Inv s ws is e t s' v lt at kept waits channels = record {
    few = v.few;
    waits = waits;
    registered = λ a below. rw (kept.1) (v.registered a below);
    receivers = λ a below. rw channels (v.receivers a below);
    bounds = λ a below. rw channels (v.bounds a below);
    below = Below-snoc n e is lt v.below;
    one_place = λ a below. rw channels (ground (arith, v.one_place a below, count-snoc a e is));
    conserving = inl refl;
  }

  -- An executor that found one has it in its channel.
  pub handed-Inv :
      (s : System Map) (ws rest : List Task) (is : List ℕ) (e : ℕ) (t u : Task) (s' : Scheduler Map)
      → Inv D n s ws is
      → e < n
      → s.running e ≡ some t
      → ws ≢ []
      → Keeps D s.sched s'
      → Waits s'.manager rest is
      → s'.channels ≡ update s.sched.channels e (with_task (s.sched.channels e) u)
      → Inv D n (record { sched = s'; running = update s.running e none }) rest is
  handed-Inv s ws rest is e t u s' v lt at some_waited kept waits channels = record {
    few = v.few;
    waits = waits;
    registered = λ a below. rw (kept.1) (v.registered a below);
    receivers = λ a below. rw channels (ground (arith, v.receivers a below, v.receivers e lt));
    bounds = λ a below. rw channels (ground (arith, v.bounds a below, v.bounds e lt));
    below = v.below;
    one_place = λ a below. rw channels (
        ground
          (arith, v.one_place a below, length-append (s.sched.channels e).queue (task u ∷ [])));
    conserving = ground (arith, v.conserving);
  }

  pub received-Inv :
      (s : System Map) (ws : List Task) (is : List ℕ) (e : ℕ) (t : Task)
      (c : SyncChannel ExecutorTask)
      → Inv D n s ws is
      → e < n
      → s.running e ≡ none
      → SyncChannel.recv (s.sched.channels e) ≡ done (ok (task t), c)
      → Inv D n
          (record {
            sched = record (s.sched) { channels = update s.sched.channels e c };
            running = update s.running e (some t);
          })
          ws
          is
  unfolding SyncChannel.recv
  received-Inv s ws is e t c v lt at got = record {
    few = v.few;
    waits = v.waits;
    registered = v.registered;
    receivers = λ a below. ground (arith, v.receivers a below, v.receivers e lt);
    bounds = λ a below. ground (arith, v.bounds a below, v.bounds e lt);
    below = v.below;
    one_place = λ a below. ground (arith, v.one_place a below);
    conserving = v.conserving;
  }
