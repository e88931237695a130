-- ===== src/Pool/Start.antt =====
-- A pool that `HoochPool::init` (src/pool/thread_pool.rs) makes.
use hooch.Base.{
  ℕ, zero, suc, ◌+◌, ◌≤◌, ◌<◌, ◌≡◌, refl, ◌∙◌, some, List, [], ◌∷◌, ◌++◌, length, length-append,
  get_elem?, get_elem?-append_left, get_elem?-snoc_last, ap, arith, update, usize_size, Returns,
  Returns-map,
}
use hooch.SyncChannel
use hooch.SyncChannel.{SyncChannel, send-room}
use hooch.Pool.{Pool, channel_bound, init_loop, init, execute_all}
use hooch.Pool.Rotation.{dealt, dealt_fair, length-dealt_le}
use hooch.Pool.Deal.{IsValid, HasRoom, execute_all_deals}

module _ {F : Type 0} where
  -- Every sender that the loop of `init` has made leads to a fresh channel of its own.
  init_loop_lem :
      (left idx : ℕ) (senders : List ℕ) (channels : ℕ → SyncChannel F) (n : ℕ)
      → idx + left ≡ n
      → length senders ≡ idx
      → ((w : ℕ) → w < idx → get_elem? senders w ≡ some w)
      → ((w : ℕ) → w < idx → channels w ≡ SyncChannel.sync_channel channel_bound)
      → let (senders', channels') = init_loop left idx senders channels in
        ((w : ℕ) → w < n → get_elem? senders' w ≡ some w)
        × ((w : ℕ) → w < n → channels' w ≡ SyncChannel.sync_channel channel_bound)
  unfolding init_loop
  init_loop_lem zero idx senders channels n e len known fresh =
      (λ w lt. known w (omega arith), λ w lt. fresh w (omega arith))
  init_loop_lem (suc left) idx senders channels n e len known fresh =
      init_loop_lem left (idx + 1) (senders ++ idx ∷ [])
        (update channels idx (SyncChannel.sync_channel channel_bound)) n (omega arith)
        (omega (arith, length-append senders (idx ∷ [])))
        (λ w lt. ground (
          arith,
          known w,
          get_elem?-append_left senders (idx ∷ []) w,
          get_elem?-snoc_last senders idx,
        ))
        (λ w lt. ground (arith, fresh w))

  -- A pool of at least one thread, made by `init`
  pub init-IsValid :
      (n : ℕ) (channels : ℕ → SyncChannel F)
      → 0 < n
      → n < usize_size
      → IsValid (init n channels)
        × ((w : ℕ) → w < n → (init n channels).channels w ≡ SyncChannel.sync_channel channel_bound)
  unfolding init SyncChannel.sync_channel
  init-IsValid n channels some_thread small =
      let (known, fresh) =
        init_loop_lem n 0 [] channels n (omega arith) refl (λ w lt. elim lt [ ])
          (λ w lt. elim lt [ ]) in
      (
        record {
          small = small;
          cursor_in = some_thread;
          senders = known;
          receivers = λ w lt. ap (λ (c : SyncChannel F). c.receiver) (fresh w lt);
        },
        fresh,
      )

  -- A new pool of n threads, 0 < n < 2 ^ 64, that is given at most 1024 closures before any of them
  -- runs: no call panics or waits, each worker gets those that fall to it in turn from worker 0 on,
  -- and no worker gets over one more than another.
  pub init_deals :
      (n : ℕ) (channels : ℕ → SyncChannel F) (fs : List F)
      → 0 < n
      → n < usize_size
      → length fs ≤ channel_bound
      → Returns
          (λ p'.
            ((w : ℕ) → w < n → (p'.channels w).queue ≡ dealt n 0 w fs)
            × ((v w : ℕ)
                → v < n
                → w < n
                → length (p'.channels v).queue ≤ suc (length (p'.channels w).queue)))
          (execute_all (init n channels) fs)
  unfolding init SyncChannel.sync_channel
  init_deals n channels fs some_thread small few =
      Returns-map _ _ (execute_all (init n channels) fs)
        (execute_all_deals fs (init n channels) valid room)
        (λ p' _ (v', queues).
          let mine : (w : ℕ) → w < n → (p'.channels w).queue ≡ dealt n 0 w fs = λ w lt.
            queues w lt ∙ ap (λ (c : SyncChannel F). c.queue ++ dealt n 0 w fs) (fresh w lt) in
          (mine, λ v w lv lw. ground (arith, mine v lv, mine w lw, dealt_fair n 0 v w fs)))
    where
      valid : IsValid (init n channels)
      valid = (init-IsValid n channels some_thread small).0

      fresh :
          (w : ℕ) → w < n → (init n channels).channels w ≡ SyncChannel.sync_channel channel_bound
      fresh = (init-IsValid n channels some_thread small).1

      room : HasRoom (init n channels) fs
      room w lt = ground (arith, fresh w lt, length-dealt_le n 0 w fs)

  -- A new pool of n threads, 0 < n < 2 ^ 64, that is given at most 1024 closures before any of them
  -- runs: no call panics or waits, each worker gets those that fall to it in turn from worker 0 on,
  -- and no worker gets over one more than another. And a valid pool that is given closures one
  -- after the other, with room for each worker's share in its channel, takes them all: no call
  -- panics or waits, the pool stays valid, and each worker's queue grows by the closures that fall
  -- to it when they are dealt out in turn from the cursor on.
  pub pool_deals :
      (n : ℕ) (channels : ℕ → SyncChannel F) (fs : List F) (p : Pool F) (gs : List F)
      → 0 < n
      → n < usize_size
      → length fs ≤ channel_bound
      → IsValid p
      → HasRoom p gs
      → Returns
          (λ p'.
            ((w : ℕ) → w < n → (p'.channels w).queue ≡ dealt n 0 w fs)
            × ((v w : ℕ)
                → v < n
                → w < n
                → length (p'.channels v).queue ≤ suc (length (p'.channels w).queue)))
          (execute_all (init n channels) fs)
        × Returns
            (λ p'.
              IsValid p'
              × ((w : ℕ)
                  → w < p.pool.num_threads
                  → (p'.channels w).queue
                    ≡ (p.channels w).queue ++ dealt p.pool.num_threads p.pool.cursor w gs))
            (execute_all p gs)
  pool_deals n channels fs p gs some_thread small few v room =
      (init_deals n channels fs some_thread small few, execute_all_deals gs p v room)
