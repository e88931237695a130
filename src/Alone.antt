-- ===== src/Alone.antt =====
-- The calls that are modelled an access at a time, when no other thread comes between their accesses:
-- src/utils/ring_buffer.rs, src/task/manager.rs and src/sync/mpsc/bounded_channel.rs.
use hooch.Base.{ℕ, suc, ◌≡◌, done, ◌>>=◌, Whenever}
use hooch.Ring.{Ring, push, pop}
use hooch.Ring.Atomic.{PushPc, PopPc, push_alone, pop_alone}
use hooch.Ring.Alone.{calls_alone}
use hooch.DashMap.{DashMap}
use hooch.Mio.{MioWaker}
use hooch.Task.{Task}
use hooch.Manager.{Scheduler, executor_ready, register_or_execute}
use hooch.Manager.Halves.{ReadyPc, SubmitPc, ready_alone, submit_alone}
use hooch.Manager.Races.{submit_alone-eq-register_or_execute}
use hooch.Manager.Alone.{ready_alone-Ends}
use hooch.Reactor.{Waker}
use hooch.Channel.{Linked, send, poll_recv}
use hooch.Channel.Alone.{send_alone-eq-send, recv_alone-eq-poll_recv}
use hooch.Channel.Threads.{SendPc, RecvPc, send_alone, recv_alone}

module _ {A T : Type 0} (D : DashMap ℕ) (mio : MioWaker) where
  open D use {Map}
  open mio use {State}

  -- The two translations of each call agree. `executor_ready` is compared if it returns.
  pub accesses_are_calls :
      (r : Ring A) (a : A) (s : Scheduler Map) (t : Task) (e : ℕ) (l : Linked T State) (v : T)
      (w : Waker)
      → (push_alone 5 (PushPc.check_full a) r
          ≡ (do (res, r') ← push r a; done (PushPc.returned res, r')))
        × (pop_alone 6 PopPc.load_start r ≡ (do (res, r') ← pop r; done (PopPc.returned res, r')))
        × (submit_alone D 3 (SubmitPc.arriving t) s
            ≡ (do s' ← register_or_execute D s t; done (SubmitPc.returned, s')))
        × Whenever
            (λ s'.
              ready_alone D (suc (suc s.manager.waiting_tasks.count)) e ReadyPc.asking s
              ≡ done (ReadyPc.returned, s'))
            (executor_ready D s e)
        × (send_alone mio 4 (SendPc.sending v) l
            ≡ (do (res, l') ← send mio l v; done (SendPc.finished res, l')))
        × (recv_alone 3 w RecvPc.looking l
            ≡ (let (answer, l') = poll_recv l w in (RecvPc.answered answer, l')))
  accesses_are_calls r a s t e l v w = (
    (calls_alone r a).0,
    (calls_alone r a).1,
    submit_alone-eq-register_or_execute D s t,
    ready_alone-Ends D e s,
    send_alone-eq-send mio l v,
    recv_alone-eq-poll_recv l w,
  )
