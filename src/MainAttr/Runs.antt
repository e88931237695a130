-- ===== src/MainAttr/Runs.antt =====
-- The programs that `hooch_main` (hooch-macro/src/lib.rs) generates, up to the end of their `main`.
use hooch.Base.{ℕ, ◌≡◌, ◌≤◌, true, false, Option, none, List, ◌>>=◌, ok, Returns}
use hooch.DashMap.{DashMap}
use hooch.Manager.{waiting_bound}
use hooch.Runtime.{World, settle, end_blocking}
use hooch.Runtime.Builder.{with_num_workers}
use hooch.Runtime.Answers.{Answered}
use hooch.Runtime.Blocking.{Launched, first_run_blocking}
use hooch.MainAttr.{main, TokenTree, ItemFn, Program, hooch_main, generated_main}
use hooch.MainAttr.Accepts.{AsksFor, AsksFor-hooch_main}

module _ (D : DashMap ℕ) {F : Type 0} (T : Type 0) where
  open D use {Map}

  -- Let the function be named `main` and `async`, and let the attribute be empty or ask for n
  -- workers, 128000 at most. Then the macro generates a program, and in a thread that has no
  -- runtime, no manager and no guard its `main` goes on until it waits for the user's future. If n
  -- is not 0, the task of the future is live and alone in the channel of executor 0, and the
  -- scheduler satisfies its invariant; if n is 0, the task waits in the manager, and no executor
  -- does. When the future ends, in whatever state the thread is then, `run_blocking` ends: it
  -- panics if the future was dropped without a value; it panics, takes one report and resets the
  -- guard if a report of a panic is in the handle's channel; otherwise it returns the value. The
  -- runtime stays.
  pub main_runs :
      (attr : List TokenTree) (input : ItemFn) (n future : ℕ) (ended : Option T)
      (w w' : World Map F)
      → AsksFor attr n
      → input.name ≡ main
      → input.is_async ≡ true
      → n ≤ waiting_bound
      → w.runtime_guard ≡ false
      → w.runtime ≡ none
      → w.task_manager ≡ none
      → (p : Program) × (hooch_main attr input ≡ ok p)
        × Returns
            (λ (h, c, t, w2).
              Launched D n c t w2
              × Returns
                  (λ (got, w''). Answered ended w' h got w'')
                  (do c' ← settle c ended; end_blocking w' h c'))
            (generated_main D T p future w)
  unfolding generated_main with_num_workers
  main_runs attr input n future ended w w' asks is_main is_async few free cold unmanaged = (
    record { num_workers = n },
    AsksFor-hooch_main attr input n asks is_main is_async,
    first_run_blocking D T n future ended w w' free cold unmanaged few,
  )
