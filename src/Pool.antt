-- ===== src/Pool.antt =====
-- src/pool/thread_pool.rs, `HoochPool`.
pub mod Rotation
pub mod Deal
pub mod Start
pub mod Panics
use hooch.Base.{
  ℕ, zero, suc, ◌+◌, ◌%◌, Bool, true, false, Option, none, some, List, [], ◌∷◌, ◌++◌, ◌==◌,
  if◌then◌else◌, get_elem?, update, usize_size, Exec, done, panicked, blocked, ◌>>=◌, unwrap,
  unwrap_some, Result, ok, err,
}
use hooch.SyncChannel
use hooch.SyncChannel.{SyncChannel}

-- `senders` are the addresses of the channels to the worker threads.
pub record HoochPool : Type 0 where
  pub num_threads : ℕ
  pub cursor : ℕ
  pub senders : List ℕ

-- The pool with the channels behind its senders. `F` are the closures that it is given.
pub record Pool (F : Type 0) : Type 0 where
  pub pool : HoochPool
  pub channels : ℕ → SyncChannel F

abbrev pub channel_bound : ℕ
channel_bound = 1024

module _ {F : Type 0} where
  -- The loop of `init` from thread `idx` on. Thread `idx` gets a fresh channel, at address `idx`.
  unfoldable pub init_loop : ℕ → ℕ → List ℕ → (ℕ → SyncChannel F) → List ℕ × (ℕ → SyncChannel F)
  init_loop zero idx senders channels = (senders, channels)
  init_loop (suc left) idx senders channels =
      init_loop left (idx + 1) (senders ++ idx ∷ [])
        (update channels idx (SyncChannel.sync_channel channel_bound))

  -- What `init` makes for a thread whose cell `HOOCH_POOL` is empty.
  unfoldable pub init : ℕ → (ℕ → SyncChannel F) → Pool F
  init num_threads channels =
      let (senders, channels') = init_loop num_threads 0 [] channels in
      record {
        pool = record { num_threads = num_threads; cursor = 0; senders = senders };
        channels = channels';
      }

-- The remainder by zero panics.
unfoldable pub get_and_update_index : HoochPool → Exec (ℕ × HoochPool)
get_and_update_index p =
    if p.num_threads == 0
    then panicked
    else done (p.cursor, record p { cursor = (p.cursor + 1) % usize_size % p.num_threads })

module _ {F : Type 0} where
  unfoldable pub execute : Pool F → F → Exec (Pool F)
  execute p boxed_fn = do
    (idx, pool) ← get_and_update_index p.pool
    sender ← unwrap_some (get_elem? pool.senders idx)
    (res, channel) ← SyncChannel.send (p.channels sender) boxed_fn
    _ ← unwrap res
    done (record { pool = pool; channels = update p.channels sender channel })

  -- A round of the loop of a worker thread: it runs the closure that it receives. `panics` says which
  -- closures do. A panic ends the thread, and drops the receiver with what is in the channel.
  unfoldable pub worker_round : (F → Bool) → SyncChannel F → Exec (SyncChannel F)
  worker_round panics c = do
    (got, c') ← SyncChannel.recv c
    elim got [
      | ok boxed_fn ↦
          done (if panics boxed_fn then record c' { queue = []; receiver = false } else c')
      | err e ↦ done c'
    ]

  -- Closures that are given to the pool one after the other.
  unfoldable pub execute_all : Pool F → List F → Exec (Pool F)
  execute_all p [] = done p
  execute_all p (f ∷ fs) = do p' ← execute p f; execute_all p' fs
