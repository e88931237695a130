-- ===== src/Channel/Threads.antt =====
-- Any number of senders and one receiver of a channel (src/sync/mpsc/bounded_channel.rs), one call or
-- atomic access a step. Accesses take effect in the order in which they are made.
use hooch.Base.{
  ℕ, zero, suc, ◌+◌, ◌-◌, ◌%◌, ◌≡◌, ◌<◌, List, [], ◌∷◌, ◌++◌, ◌==◌, if◌then◌else◌, update,
  usize_size, Exec, done, ◌>>=◌, unwrap, Result, ok, err,
}
use hooch.SyncChannel
use hooch.SyncChannel.{SyncChannel, SendError, RecvError, recv_error}
use hooch.Mio.{MioWaker}
use hooch.Reactor
use hooch.Reactor.{Reactor, Waker, Poll, pending, ready}
use hooch.Channel.{Linked, poll_empty}

-- Where a thread stands in `send`.
pub data SendPc (T : Type 0) : Type 0 where
  sending : T → SendPc T
  counting : SendPc T
  registering : SendPc T
  waking : SendPc T
  finished : Result (Unit {0}) (SendError T) → SendPc T

-- Where the receiver stands in `poll_recv`.
pub data RecvPc (T : Type 0) : Type 0 where
  looking : RecvPc T
  storing : RecvPc T
  taking : RecvPc T
  uncounting : T → RecvPc T
  answered : Poll (Result T RecvError) → RecvPc T

module _ {T : Type 0} (mio : MioWaker) where
  open mio use {State, wake}

  -- The next access of `send`.
  unfoldable pub send_access : SendPc T → Linked T State → Exec (SendPc T × Linked T State)
  send_access (sending v) s = do
    (res, inner) ← SyncChannel.send s.channel.inner v
    done (
      elim res [ ok _ ↦ counting | err e ↦ finished (err e) ],
      record s { channel = record (s.channel) { inner = inner } },
    )
  send_access counting s = done (
    registering,
    record s {
      channel = record (s.channel) { queue_cnt = (s.channel.queue_cnt + 1) % usize_size };
    },
  )
  send_access registering s = do
    reactor ← Reactor.register_reactor_tag s.reactor s.channel.reactor_tag
    done (waking, record s { reactor = reactor })
  send_access waking s = do
    let (woke, m) = wake s.mio
    _ ← unwrap woke
    done (finished (ok tt), record s { mio = m })
  send_access (finished res) s = done (finished res, s)

  -- A call that no other thread interrupts.
  unfoldable pub send_alone : ℕ → SendPc T → Linked T State → Exec (SendPc T × Linked T State)
  send_alone zero pc s = done (pc, s)
  send_alone (suc k) pc s = do (pc', s') ← send_access pc s; send_alone k pc' s'

module _ {T M : Type 0} where
  -- The next access of `poll_recv`.
  unfoldable pub recv_access : Waker → RecvPc T → Linked T M → RecvPc T × Linked T M
  recv_access w looking s = (if s.channel.queue_cnt == 0 then storing else taking, s)
  recv_access w storing s = (answered pending, poll_empty s w)
  recv_access w taking s =
      let (v, inner) = SyncChannel.try_recv s.channel.inner in
      (
        elim v [ ok val ↦ uncounting val | err e ↦ answered (ready (err recv_error)) ],
        record s { channel = record (s.channel) { inner = inner } },
      )
  recv_access w (uncounting v) s = (
    answered (ready (ok v)),
    record s {
      channel = record (s.channel) {
        queue_cnt = (s.channel.queue_cnt + (usize_size - 1)) % usize_size;
      };
    },
  )
  recv_access w (answered answer) s = (answered answer, s)

  unfoldable pub recv_alone : ℕ → Waker → RecvPc T → Linked T M → RecvPc T × Linked T M
  recv_alone zero w pc s = (pc, s)
  recv_alone (suc k) w pc s = let (pc', s') = recv_access w pc s in recv_alone k w pc' s'

-- The threads, with the messages in the order in which they went into the inner channel, and those
-- that came out of it.
pub record Threads (T M : Type 0) : Type 0 where
  pub linked : Linked T M
  pub senders : ℕ → SendPc T
  pub receiver : RecvPc T
  pub sent : List T
  pub received : List T

-- What an access of `send`, or of `poll_recv`, puts in or takes out.
abbrev pub puts : {T : Type 0} → SendPc T → SendPc T → List T
puts (sending v) counting = v ∷ []
puts _ _ = []

abbrev pub takes : {T : Type 0} → RecvPc T → RecvPc T → List T
takes taking (uncounting v) = v ∷ []
takes _ _ = []

module _ (T : Type 0) (mio : MioWaker) (n : ℕ) where
  open mio use {State}

  -- Senders 0 to `n` - 1 and the receiver make their next access, or begin another call. The reactor
  -- is used by others as well, who may leave it in any state.
  pub data Step (q : Threads T State) : Threads T State → Type 0 where
    sender_moves :
        (i : ℕ) {pc : SendPc T} {s : Linked T State}
        → i < n
        → send_access mio (q.senders i) q.linked ≡ done (pc, s)
        → Step q (record q {
          linked = s;
          senders = update q.senders i pc;
          sent = q.sent ++ puts (q.senders i) pc;
        })
    sender_begins :
        (i : ℕ) (v : T) {res : Result (Unit {0}) (SendError T)}
        → i < n
        → q.senders i ≡ finished res
        → Step q (record q { senders = update q.senders i (sending v) })
    receiver_moves :
        (w : Waker)
        → Step q (
            let (pc, s) = recv_access w q.receiver q.linked in
            record q { linked = s; receiver = pc; received = q.received ++ takes q.receiver pc })
    receiver_begins :
        {answer : Poll (Result T RecvError)}
        → q.receiver ≡ answered answer
        → Step q (record q { receiver = looking })
    others_move :
        (r : Reactor) (m : State)
        → Step q (record q { linked = record (q.linked) { reactor = r; mio = m } })

  pub data Reach (q : Threads T State) : Threads T State → Type 0 where
    here : Reach q q
    later : {p r : Threads T State} → Reach q p → Step p r → Reach q r
