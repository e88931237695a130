-- ===== src/Runtime/Answers.antt =====
-- What `Handle::run_blocking` (src/runtime.rs) answers.
use hooch.Base.{
  ℕ, ◌≡◌, refl, Bool, false, Option, none, some, List, [], ◌∷◌, arith, update, Exec, done, panicked,
  ◌>>=◌, Returns, ok,
}
use hooch.SyncChannel
use hooch.SyncChannel.{SyncChannel, try_recv-some, try_recv-none}
use hooch.Runtime.{World, exit_runtime_guard, settle, end_blocking, finish_blocking}

module _ {M F : Type 0} where
  -- The reports `rest` are left in the channel at `h`.
  abbrev pub taken : World M F → ℕ → List (Unit {0}) → World M F
  taken w h rest = record w { panics = update w.panics h (record (w.panics h) { queue = rest }) }

module _ {M F T : Type 0} where
  pub finish_told :
      (w : World M F) (h : ℕ) (res : T) (rest : List (Unit {0}))
      → (w.panics h).queue ≡ tt ∷ rest
      → finish_blocking w h (ok res) ≡ (panicked, exit_runtime_guard (taken w h rest))
  unfolding finish_blocking
  finish_told w h res rest some_there =
      let got : SyncChannel.try_recv (w.panics h) ≡ (ok tt, record (w.panics h) { queue = rest }) =
        try_recv-some (w.panics h) tt rest some_there in
      rw (got, finish_blocking) (rw got refl)

  finish_quiet :
      (w : World M F) (h : ℕ) (res : T)
      → (w.panics h).queue ≡ []
      → finish_blocking w h (ok res)
        ≡ (done res, record w { panics = update w.panics h (w.panics h) })
  unfolding finish_blocking
  finish_quiet w h res none_there =
      rw (try_recv-none (w.panics h) none_there, finish_blocking)
        (rw (try_recv-none (w.panics h) none_there) refl)

-- What `run_blocking` gives its caller, when its wrapped future has ended with `ended` and `reports`
-- are in the handle's channel: the value, or a panic.
abbrev pub verdict : {T : Type 0} → Option T → List (Unit {0}) → Exec T
verdict none reports = panicked
verdict (some res) [] = done res
verdict (some res) (r ∷ reports) = panicked

-- The guard and the reports afterwards.
abbrev pub guard_after : {T : Type 0} → Option T → List (Unit {0}) → Bool → Bool
guard_after none reports guard = guard
guard_after (some res) [] guard = guard
guard_after (some res) (r ∷ reports) guard = false

abbrev pub reports_after : {T : Type 0} → Option T → List (Unit {0}) → List (Unit {0})
reports_after none reports = reports
reports_after (some res) [] = []
reports_after (some res) (r ∷ reports) = reports

module _ {M F T : Type 0} where
  pub record Answered (ended : Option T) (w : World M F) (panic_rx : ℕ) (got : Exec T)
      (w' : World M F) : Type 0 where
    pub answer : got ≡ verdict ended (w.panics panic_rx).queue
    pub guard : w'.runtime_guard ≡ guard_after ended (w.panics panic_rx).queue w.runtime_guard
    pub runtime_kept : w'.runtime ≡ w.runtime
    pub told : (w'.panics panic_rx).queue ≡ reports_after ended (w.panics panic_rx).queue

  finish-Answered :
      (w : World M F) (panic_rx : ℕ) (res : T) (reports : List (Unit {0}))
      → (w.panics panic_rx).queue ≡ reports
      → let (got, w') = finish_blocking w panic_rx (ok res) in Answered (some res) w panic_rx got w'
  unfolding exit_runtime_guard
  finish-Answered w panic_rx res [] at = rw (finish_quiet w panic_rx res at) (record {
    answer = rw at refl;
    guard = rw at refl;
    runtime_kept = refl;
    told = ground (arith, at);
  })
  finish-Answered w panic_rx res (tt ∷ reports) at =
      rw (finish_told w panic_rx res reports at) (record {
        answer = rw at refl;
        guard = rw at refl;
        runtime_kept = refl;
        told = ground (arith, at);
      })

  -- A new channel of one message, once its only sender has ended.
  pub settle-Answered :
      (ended : Option T) (w : World M F) (panic_rx : ℕ)
      → Returns
          (λ (got, w'). Answered ended w panic_rx got w')
          (do c ← settle (SyncChannel.sync_channel 1) ended; end_blocking w panic_rx c)
  unfolding settle end_blocking finish_blocking SyncChannel.sync_channel SyncChannel.recv
      SyncChannel.send
  settle-Answered none w panic_rx = record {
    answer = refl;
    guard = refl;
    runtime_kept = refl;
    told = refl;
  }
  settle-Answered (some res) w panic_rx = finish-Answered w panic_rx res _ refl
