-- ===== src/Spawner/Spawned.antt =====
-- A task from `Handle::spawn` (src/runtime.rs, src/spawner.rs) to the poll of its handle.
use hooch.Base.{
  ℕ, ◌≡◌, ◌<◌, refl, false, none, some, List, [], ◌∷◌, length, arith, update, Returns,
  Returns-value, Returns-map, Option,
}
use hooch.Ring.{capacity}
use hooch.Ring.Fifo.{Holds}
use hooch.SyncChannel
use hooch.DashMap.{DashMap}
use hooch.Mio.{MioWaker, NeverFails}
use hooch.Reactor.{Reactor, Waker, pending}
use hooch.Task.{Task, has_aborted, generate_tag}
use hooch.Manager.{Scheduler, register_or_execute}
use hooch.Manager.Waits.{with_task}
use hooch.Manager.Submit.{submit_sends}
use hooch.Manager.System.{Inv}
use hooch.Manager.Invariant.{aborts-Inv, IsOpen-of_idle}
use hooch.Channel.{Channel, Linked, bounded_channel}
use hooch.Channel.Counts.{Tallies}
use hooch.Runtime.{Runtime}
use hooch.Runtime.Jobs.{dispatch_job}
use hooch.Runtime.Jobs
use hooch.Spawner.{BoxAny, JoinHandle, Spawning, poll, finish}
use hooch.Spawner
use hooch.Spawner.Joins.{join_gets_value}
use hooch.Spawner.Woken.{GetsValue, Wakes, early_join}

module _ (D : DashMap ℕ) (n : ℕ) (T : Type 0) where
  open D use {Map}

  -- What a spawn gives its caller, and where it leaves the task, if executor `e` waits.
  pub record Spawned (sp : Spawning Map) (e future : ℕ) (jh : JoinHandle) (t : Task)
      (c : Channel (BoxAny T)) (sp' : Spawning Map) : Type 0 where
    pub handed : sp'.sched.channels ≡ update sp.sched.channels e (with_task (sp.sched.channels e) t)
    pub own_future : t.future ≡ future
    pub live : has_aborted sp'.sched.aborts t ≡ false
    pub same_flag : jh.abort ≡ t.abort
    pub unpolled : jh.recv_fut ≡ none
    pub fresh : c ≡ (bounded_channel 1 sp.reactor).0

  spawn-Spawned :
      (sp : Spawning Map) (rt : Runtime) (future e : ℕ) (running : ℕ → Option Task) (ws : List Task)
      (is : List ℕ)
      → Inv D n (record { sched = sp.sched; running = running }) ws (e ∷ is)
      → Returns
          (λ ((jh, t, c), sp'). Spawned sp e future jh t c sp')
          (Jobs.spawn D (some rt) future sp)
  unfolding Jobs.spawn dispatch_job Spawner.spawn has_aborted
  spawn-Spawned sp rt future e running ws is v =
      let t : Task = record {
        future = future;
        task_tag = (generate_tag sp.next_task_tag).0;
        abort = sp.next_abort;
      } in
      let s : Scheduler Map = record (sp.sched) {
        aborts = update sp.sched.aborts sp.next_abort false;
      } in
      let v' : Inv D n (record { sched = s; running = running }) ws (e ∷ is) =
        aborts-Inv D n (record { sched = sp.sched; running = running }) ws (e ∷ is) _ v in
      let unset : has_aborted s.aborts t ≡ false = ground arith in
      let (s', returns, (kept, waits, channels)) = Returns-value _ (register_or_execute D s t) (
        submit_sends D s ws e is e t unset v'.waits
          (IsOpen-of_idle D n (record { sched = s; running = running }) ws e is v')) in
      rw returns (record {
        handed = channels;
        own_future = refl;
        live = rw (kept.0) unset;
        same_flag = refl;
        unpolled = refl;
        fresh = refl;
      })

module _ (D : DashMap ℕ) (n : ℕ) {T : Type 0} (mio : MioWaker) (works : NeverFails mio) where
  open D use {Map}
  open mio use {State}

  -- The channel of a new handle, on any reactor.
  fresh-Tallies :
      (r r' : Reactor) (m : State) (ts : List ℕ)
      → Holds r'.reactor_tag_buffer ts
      → Tallies
          (record { channel = (bounded_channel {T = BoxAny T} 1 r).0; reactor = r'; mio = m })
          []
          ts
  unfolding bounded_channel SyncChannel.sync_channel
  fresh-Tallies r r' m ts holds = record {
    queue = refl;
    counted = refl;
    fits = omega arith;
    small = omega arith;
    receiver = refl;
    tags = holds;
  }

  -- Let the scheduler satisfy its invariant and an executor wait. A spawn on the runtime returns:
  -- its task, which has the future, and whose flag is the handle's and not set, goes to the
  -- executor that has waited longest. Let wake-ups never fail and the tag buffer have room. If the
  -- handle has not been polled when the wrapped future ends with a value, its first poll is ready
  -- with the value, and a poll after that one panics. If it has been polled before, that poll is
  -- pending; the event of the reactor's waker that follows the end of the future wakes the waker of
  -- that poll last, and then the same holds of the next poll.
  pub spawn_then_join :
      (sp : Spawning Map) (rt : Runtime) (future e : ℕ) (running : ℕ → Option Task) (ws : List Task)
      (is : List ℕ) (r : Reactor) (m : State) (v : T) (ts : List ℕ) (w w' w'' : Waker)
      → Inv D n (record { sched = sp.sched; running = running }) ws (e ∷ is)
      → Holds r.reactor_tag_buffer ts
      → length ts < capacity r.reactor_tag_buffer
      → Returns
          (λ ((jh, t, c), sp').
            let s : Linked (BoxAny T) State = record { channel = c; reactor = r; mio = m } in
            Spawned D n T sp e future jh t c sp'
            × Returns (GetsValue mio jh v w w') (finish mio s v)
            × Returns
                (λ (answer, jh', s').
                  (answer ≡ pending) × Returns (Wakes mio jh' v w w' w'') (finish mio s' v))
                (poll jh s w))
          (Jobs.spawn D (some rt) future sp)
  unfolding bounded_channel SyncChannel.sync_channel
  spawn_then_join sp rt future e running ws is r m v ts w w' w'' inv holds room =
      Returns-map _ _ (Jobs.spawn D (some rt) future sp)
        (spawn-Spawned D n T sp rt future e running ws is inv)
        (λ ((jh, t, c), sp') _ spawned.
          let tallies = fresh-Tallies sp.reactor r m ts holds in
          (
            spawned,
            rw (spawned.fresh) (
                join_gets_value mio works jh _ v ts w w' spawned.unpolled tallies (omega arith)
                  (omega arith) room),
            rw (spawned.fresh) (
                early_join mio works jh _ v ts w w' w'' spawned.unpolled tallies (omega arith)
                  (omega arith) room),
          ))
