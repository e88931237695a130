-- ===== src/Channel/Bounds.antt =====
-- No access of src/sync/mpsc/bounded_channel.rs changes the bound of the inner channel.
use hooch.Base.{
  ℕ, ◌≡◌, refl, ◌∙◌, List, [], ◌∷◌, ltb, length, unwrap, Whenever, Whenever-if, Whenever-bind,
  Whenever-then, Whenever-done,
}
use hooch.SyncChannel
use hooch.SyncChannel.{SyncChannel}
use hooch.Mio.{MioWaker}
use hooch.Reactor
use hooch.Reactor.{Waker}
use hooch.Channel.{Linked, poll_empty}
use hooch.Channel.Threads.{
  SendPc, sending, counting, registering, waking, finished, RecvPc, looking, storing, taking,
  uncounting, answered, send_access, recv_access, Threads, Step, sender_moves, sender_begins,
  receiver_moves, receiver_begins, others_move, Reach, here, later,
}

send-bound :
    {T : Type 0} (c : SyncChannel T) (v : T)
    → Whenever (λ (_, c'). c'.bound ≡ c.bound) (SyncChannel.send c v)
unfolding SyncChannel.send
send-bound c v =
    Whenever-if _ c.receiver _ _ (Whenever-if _ (ltb (length c.queue) c.bound) _ _ refl tt) refl

try_recv-bound :
    {T : Type 0} (c : SyncChannel T) (q : List T)
    → c.queue ≡ q
    → (SyncChannel.try_recv c).1.bound ≡ c.bound
unfolding SyncChannel.try_recv
try_recv-bound c [] at = rw at refl
try_recv-bound c (v ∷ q) at = rw at refl

-- The bound of the inner channel.
abbrev bound_of : {T M : Type 0} → Linked T M → ℕ
bound_of l = l.channel.inner.bound

module _ (T : Type 0) (mio : MioWaker) (n : ℕ) where
  open mio use {State, wake}

  send_access-bound :
      (pc : SendPc T) (l : Linked T State)
      → Whenever (λ (_, l'). bound_of l' ≡ bound_of l) (send_access mio pc l)
  unfolding send_access
  send_access-bound (sending v) l =
      Whenever-bind (λ (_, c). c.bound ≡ bound_of l) _ (SyncChannel.send l.channel.inner v) _
        (send-bound l.channel.inner v) (λ sent same. same)
  send_access-bound counting l = refl
  send_access-bound registering l =
      Whenever-then _ (Reactor.register_reactor_tag l.reactor l.channel.reactor_tag) _ (λ r. refl)
  send_access-bound waking l = Whenever-then _ (unwrap (wake l.mio).0) _ (λ _. refl)
  send_access-bound (finished res) l = refl

  recv_access-bound :
      (w : Waker) (pc : RecvPc T) (l : Linked T State)
      → bound_of (recv_access w pc l).1 ≡ bound_of l
  unfolding recv_access poll_empty
  recv_access-bound w looking l = refl
  recv_access-bound w storing l = refl
  recv_access-bound w taking l = try_recv-bound l.channel.inner _ refl
  recv_access-bound w (uncounting v) l = refl
  recv_access-bound w (answered a) l = refl

  Step-bound : (p q : Threads T State) → Step T mio n p q → bound_of q.linked ≡ bound_of p.linked
  Step-bound p _ (sender_moves i {pc} {s} lt e) =
      Whenever-done (λ (_, l). bound_of l ≡ bound_of p.linked)
        (send_access mio (p.senders i) p.linked) e (send_access-bound (p.senders i) p.linked)
  Step-bound p _ (sender_begins i v lt at) = refl
  Step-bound p _ (receiver_moves w) = recv_access-bound w p.receiver p.linked
  Step-bound p _ (receiver_begins at) = refl
  Step-bound p _ (others_move r m) = refl

  pub Reach-bound :
      (p q : Threads T State) → Reach T mio n p q → bound_of q.linked ≡ bound_of p.linked
  Reach-bound p q here = refl
  Reach-bound p q (later {p = r} before step) = Step-bound r q step ∙ Reach-bound p r before
