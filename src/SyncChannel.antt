-- ===== src/SyncChannel.antt =====
-- The bounded channel of Rust's standard library (`std::sync::mpsc::sync_channel`), as far as the
-- repository uses it: by src/task/manager.rs, src/executor.rs, src/spawner.rs, src/runtime.rs,
-- src/pool/thread_pool.rs and src/sync/mpsc/bounded_channel.rs.
use hooch.Base.{
  ℕ, ◌<◌, ◌≤◌, ◌≡◌, refl, Bool, true, false, List, [], ◌∷◌, ◌++◌, arith, ltb, ◌==◌, if◌then◌else◌,
  length, Exec, done, blocked, Result, ok, err,
}

-- `queue` holds the messages in transit, oldest first. `receiver` says whether the receiver is
-- alive, and `senders` counts the clones of the sender.
pub record SyncChannel (T : Type 0) : Type 0 where
  pub bound : ℕ
  pub queue : List T
  pub receiver : Bool
  pub senders : ℕ

-- It carries the message back.
pub data SendError (T : Type 0) : Type 0 where
  send_error : T → SendError T

pub data RecvError : Type 0 where
  recv_error : RecvError

pub data TryRecvError : Type 0 where
  empty disconnected : TryRecvError

module _ {T : Type 0} where
  unfoldable pub sync_channel : ℕ → SyncChannel T
  sync_channel bound = record { bound = bound; queue = []; receiver = true; senders = 1 }

  -- A send waits while the queue is full. With bound 0 it waits for a `recv` that is under way, and
  -- no caller here makes one on such a channel.
  unfoldable pub send : SyncChannel T → T → Exec (Result (Unit {0}) (SendError T) × SyncChannel T)
  send c v =
      if c.receiver
      then (if ltb (length c.queue) c.bound
          then done (ok tt, record c { queue = c.queue ++ v ∷ [] })
          else blocked)
      else done (err (send_error v), c)

  unfoldable pub recv : SyncChannel T → Exec (Result T RecvError × SyncChannel T)
  recv c = elim c.queue [
    | v ∷ rest ↦ done (ok v, record c { queue = rest })
    | [] ↦ if c.senders == 0 then done (err recv_error, c) else blocked
  ]

  unfoldable pub try_recv : SyncChannel T → Result T TryRecvError × SyncChannel T
  try_recv c = elim c.queue [
    | v ∷ rest ↦ (ok v, record c { queue = rest })
    | [] ↦ (err (if c.senders == 0 then disconnected else empty), c)
  ]

  pub send-room :
      (c : SyncChannel T) (v : T)
      → c.receiver ≡ true
      → length c.queue < c.bound
      → send c v ≡ done (ok tt, record c { queue = c.queue ++ v ∷ [] })
  unfolding send
  send-room c v alive room = ground arith

  pub send-full :
      (c : SyncChannel T) (v : T)
      → c.receiver ≡ true
      → c.bound ≤ length c.queue
      → send c v ≡ blocked
  unfolding send
  send-full c v alive full = ground arith

  pub send-closed :
      (c : SyncChannel T) (v : T) → c.receiver ≡ false → send c v ≡ done (err (send_error v), c)
  unfolding send
  send-closed c v closed = simp closed refl

  pub try_recv-some :
      (c : SyncChannel T) (v : T) (rest : List T)
      → c.queue ≡ v ∷ rest
      → try_recv c ≡ (ok v, record c { queue = rest })
  unfolding try_recv
  try_recv-some c v rest there = rw there refl

  pub try_recv-none :
      (c : SyncChannel T)
      → c.queue ≡ []
      → try_recv c ≡ (err (if c.senders == 0 then disconnected else empty), c)
  unfolding try_recv
  try_recv-none c nil = rw nil refl
