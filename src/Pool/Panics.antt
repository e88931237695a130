-- ===== src/Pool/Panics.antt =====
-- What a closure that panics does to a `HoochPool` (src/pool/thread_pool.rs).
use hooch.Base.{Bool, ◌≡◌, true, false, List, ◌∷◌, arith, ◌==◌, update, done, panicked}
use hooch.SyncChannel
use hooch.SyncChannel.{SyncChannel, send-room}
use hooch.Pool.{Pool, get_and_update_index, execute}
use hooch.Pool.{worker_round}
use hooch.Pool.Deal.{IsValid}

module _ {F : Type 0} where
  -- In a valid pool, let the worker whose turn is next run a closure that panics. Then the next
  -- `execute`, by whatever thread, panics as well: the closure given to it is lost.
  pub panic_spreads :
      (panics : F → Bool) (p : Pool F) (f g : F) (rest : List F) (c : SyncChannel F)
      → IsValid p
      → (p.channels p.pool.cursor).queue ≡ f ∷ rest
      → panics f ≡ true
      → worker_round panics (p.channels p.pool.cursor) ≡ done c
      → execute (record p { channels = update p.channels p.pool.cursor c }) g ≡ panicked
  unfolding worker_round execute get_and_update_index SyncChannel.recv SyncChannel.send
  panic_spreads panics p f g rest c v queue bad round =
      rw (some_threads, v.senders _ v.cursor_in) (ground arith)
    where
      some_threads : (p.pool.num_threads == 0) ≡ false
      some_threads = ground (arith, v.cursor_in)
