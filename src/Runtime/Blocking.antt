-- ===== src/Runtime/Blocking.antt =====
-- `run_blocking` of a runtime that has just been built (src/runtime.rs).
use hooch.Base.{
  Returns-bind, ℕ, zero, suc, ◌≤◌, ◌≡◌, refl, ap, subst, false, Option, none, some, List, [], ◌∷◌,
  ◌++◌, length, count-cons, arith, update, done, blocked, ◌>>=◌, Returns, Returns-value,
}
use hooch.SyncChannel
use hooch.SyncChannel.{SyncChannel, try_recv-some, try_recv-none}
use hooch.DashMap.{DashMap}
use hooch.Task.{Task, has_aborted, generate_tag}
use hooch.Manager.{Scheduler, ExecutorTask, waiting_bound, task, register_or_execute}
use hooch.Manager.Submit.{submit_sends, submit-Waits}
use hooch.Manager.Waits.{Waits}
use hooch.Manager.System.{Inv}
use hooch.Manager.Safety.{Preserved}
use hooch.Manager.Invariant.{aborts-Inv, IsOpen-of_idle, sent-Inv}
use hooch.Runtime.{Runtime, World, get_manager, build, start_blocking, settle, end_blocking}
use hooch.Runtime.Workers.{upto, at_rest}
use hooch.Runtime.Guard.{Started, build-Started}
use hooch.Runtime.Answers.{Answered, settle-Answered}

upto-cons : (n : ℕ) → (rest : List ℕ) × (upto (suc n) ≡ 0 ∷ rest)
unfolding upto
upto-cons zero = ([], refl)
upto-cons (suc n) =
    let (rest, e) = upto-cons n in (rest ++ suc n ∷ [], ap (λ (is : List ℕ). is ++ suc n ∷ []) e)

module _ (D : DashMap ℕ) {F T : Type 0} where
  open D use {Map}

  -- What a call of `run_blocking` leaves that waits for its task.
  pub record Asked (workers : ℕ) (c : SyncChannel T) (t : Task) (w : World Map F) : Type 0 where
    pub handed : (w.channels 0).queue ≡ task t ∷ []
    pub live : has_aborted w.aborts t ≡ false
    pub scheduled : Preserved D workers (at_rest D (get_manager D w))
    pub own_channel : c ≡ SyncChannel.sync_channel 1
    pub unanswered : SyncChannel.recv c ≡ blocked

module _ (D : DashMap ℕ) {F T : Type 0} where
  open D use {Map}

  -- What it leaves if there is no executor.
  pub record Stuck (c : SyncChannel T) (t : Task) (w : World Map F) : Type 0 where
    pub queued : Waits (get_manager D w).manager (t ∷ []) []
    pub unanswered : SyncChannel.recv c ≡ blocked
    pub own_channel : c ≡ SyncChannel.sync_channel 1

  -- With `n` executors.
  abbrev pub Launched : ℕ → SyncChannel T → Task → World Map F → Type 0
  Launched zero c t w = Stuck c t w
  Launched (suc n) c t w = Asked D (suc n) c t w

module _ (D : DashMap ℕ) where
  open D use {Map}

  -- An executor that waits has nothing in its channel.
  idle_empty :
      (n : ℕ) (s : Scheduler Map) (ws : List Task) (rest : List ℕ)
      → Inv D (suc n) (at_rest D s) ws (0 ∷ rest)
      → (s.channels 0).queue ≡ []
  idle_empty n s ws rest v =
      nothing (s.channels 0).queue
        (ground (arith, v.one_place 0 (omega arith), count-cons 0 0 rest))
    where
      nothing : (q : List ExecutorTask) → length q ≡ 0 → q ≡ []
      nothing [] e = refl
      nothing (x ∷ q) e = absurd (omega (arith, e))

module _ (D : DashMap ℕ) {F : Type 0} (T : Type 0) where
  open D use {Map}

  pub start-Asked :
      (n future : ℕ) (w : World Map F) (rt : Runtime) (rest : List ℕ)
      → w.runtime ≡ some rt
      → Inv D (suc n) (at_rest D (get_manager D w)) [] (0 ∷ rest)
      → Returns (λ (c, t, w'). Asked D (suc n) c t w') (start_blocking D {T = T} future w)
  unfolding start_blocking get_manager has_aborted SyncChannel.recv SyncChannel.sync_channel
  start-Asked n future w rt rest there v =
      let t : Task = record {
        future = future;
        task_tag = (generate_tag w.task_tag_num).0;
        abort = w.next_abort;
      } in
      let s = get_manager D w in
      let aborts = update w.aborts w.next_abort false in
      let unset : has_aborted aborts t ≡ false = ground arith in
      let v' : Inv D (suc n) (at_rest D (record s { aborts = aborts })) [] (0 ∷ rest) =
        aborts-Inv D (suc n) (at_rest D s) [] (0 ∷ rest) aborts v in
      let (s', returns, (kept, waits, channels)) =
        Returns-value _ (register_or_execute D (record s { aborts = aborts }) t) (
          submit_sends D (record s { aborts = aborts }) [] 0 rest 0 t unset v'.waits
            (IsOpen-of_idle D (suc n) (at_rest D (record s { aborts = aborts })) [] 0 rest v')) in
      rw (there, returns)
        (record {
          handed = rw channels (ap (λ q. q ++ task t ∷ []) (idle_empty D n s [] rest v));
          live = rw (kept.0) unset;
          scheduled = (
            [],
            rest,
            sent-Inv D (suc n) (at_rest D (record s { aborts = aborts })) [] 0 rest t s' v' kept
                waits channels,
          );
          own_channel = refl;
          unanswered = refl;
        })

  -- Without an executor the task waits for ever.
  start-Stuck :
      (future : ℕ) (w : World Map F) (rt : Runtime)
      → w.runtime ≡ some rt
      → Waits (get_manager D w).manager [] []
      → Returns (λ (c, t, w'). Stuck D c t w') (start_blocking D {T = T} future w)
  unfolding start_blocking get_manager has_aborted SyncChannel.recv SyncChannel.sync_channel
  start-Stuck future w rt there waits =
      let t : Task = record {
        future = future;
        task_tag = (generate_tag w.task_tag_num).0;
        abort = w.next_abort;
      } in
      let s = get_manager D w in
      let aborts = update w.aborts w.next_abort false in
      let unset : has_aborted aborts t ≡ false = ground arith in
      let (s', returns, (kept, waits', channels)) =
        Returns-value _ (register_or_execute D (record s { aborts = aborts }) t)
          (submit-Waits D (record s { aborts = aborts }) [] t unset waits (omega arith)) in
      rw (there, returns) (record { queued = waits'; unanswered = refl; own_channel = refl })

  pub launch-Launched :
      (n future : ℕ) (w w1 : World Map F) (h : ℕ)
      → Started D n w h w1
      → Returns (λ (c, t, w2). Launched D n c t w2) (start_blocking D {T = T} future w1)
  unfolding upto
  launch-Launched zero future w w1 h st = start-Stuck future w1 _ st.workers_kept st.scheduled.waits
  launch-Launched (suc n) future w w1 h st =
      let (rest, all) = upto-cons n in
      start-Asked n future w1 _ rest st.workers_kept
        (subst (λ is. Inv D (suc n) (at_rest D (get_manager D w1)) [] is) all st.scheduled)

  Launched-channel :
      (n : ℕ) (c : SyncChannel T) (t : Task) (w : World Map F)
      → Launched D n c t w
      → c ≡ SyncChannel.sync_channel 1
  Launched-channel zero c t w stuck = stuck.own_channel
  Launched-channel (suc n) c t w asked = asked.own_channel

  pub first_run_blocking :
      (n future : ℕ) (ended : Option T) (w w' : World Map F)
      → w.runtime_guard ≡ false
      → w.runtime ≡ none
      → w.task_manager ≡ none
      → n ≤ waiting_bound
      → Returns
          (λ (h, c, t, w2).
            Launched D n c t w2
            × Returns
                (λ (got, w''). Answered ended w' h got w'')
                (do c' ← settle c ended; end_blocking w' h c'))
          (do
            (h, w1) ← build D n w
            (c, t, w2) ← start_blocking D {T = T} future w1
            done (h, c, t, w2))
  first_run_blocking n future ended w w' free cold unmanaged few =
      Returns-bind (λ (h, w1). Started D n w h w1) _ (build D n w) _
        (build-Started D n w free cold unmanaged few)
        (λ (h, w1) st.
          Returns-bind (λ (c, t, w2). Launched D n c t w2) _ (start_blocking D future w1) _
            (launch-Launched n future w w1 h st)
            (λ (c, t, w2) launched.
              (launched, rw (Launched-channel n c t w2 launched) (settle-Answered ended w' h))))
