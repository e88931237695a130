-- ===== src/Ring/Refine.antt =====
-- src/utils/ring_buffer.rs used by one thread at a time refines the FIFO of `Queue`.
use hooch.Base.{
  ℕ, ◌<◌, ◌≡◌, refl, ◌∙◌, inl, inr, none, List, [], ◌∷◌, arith, ◌==◌, Bool-cases, length, Exec,
  done, ◌>>=◌, usize_size, length-replicate,
}
use hooch.Ring.{Ring, capacity, new, push, pop}
use hooch.Ring.Queue.{Call, put, take, Reply, put_reply, take_reply}
use hooch.Ring.Queue
use hooch.Ring.Fifo.{
  Holds, new-Holds, pushed, popped, capacity-pushed, capacity-popped, push-full, push-eq-pushed,
  pushed-Holds, pop-empty, pop-eq-popped, popped-Holds,
}

module _ {ℓ} {A : Type ℓ} where
  -- The client's calls, made one after the other.
  step : Ring A → Call A → Exec (Reply A × Ring A)
  step r (put v) = do (res, r') ← push r v; done (put_reply res, r')
  step r take = do (res, r') ← pop r; done (take_reply res, r')

  pub run : Ring A → List (Call A) → Exec (List (Reply A) × Ring A)
  unfolding step
  run r [] = done ([], r)
  run r (c ∷ cs) = do
    (reply, r') ← step r c
    (replies, r'') ← run r' cs
    done (reply ∷ replies, r'')

  -- The ring ends as the queue does, with the reply of the queue.
  abbrev pub Refines {κ} : {B : Type κ} → Exec (B × Ring A) → B × List A → ℕ → Type (ℓ ⊔ κ)
  Refines e (b, xs) cap = (r : Ring A) × (e ≡ done (b, r)) × Holds r xs × (capacity r ≡ cap)

  step-Refines :
      (r : Ring A) (xs : List A) (bound : ℕ) (c : Call A)
      → capacity r ≡ bound
      → Holds r xs
      → Refines (step r c) (Queue.step bound xs c) bound
  unfolding step Queue.step
  step-Refines r xs bound (put v) size h = elim (Bool-cases (length xs == bound)) [
    | inl full ↦ rw full (r, rw (push-full r xs v h (ground arith)), h, size)
    | inr room ↦
        let space : length xs < capacity r = ground arith in
        rw room (
          pushed r v,
          rw (push-eq-pushed r xs v h space),
          pushed-Holds r xs v h space,
          capacity-pushed r v ∙ size,
        )
  ]
  step-Refines r [] bound take size h = (r, rw (pop-empty r h), h, size)
  step-Refines r (x ∷ xs) bound take size h =
      (popped r, rw (pop-eq-popped r x xs h), popped-Holds r x xs h, capacity-popped r ∙ size)

  -- The same of any number of calls.
  run_steps :
      (cs : List (Call A)) (r : Ring A) (xs : List A) (bound : ℕ)
      → capacity r ≡ bound
      → Holds r xs
      → Refines (run r cs) (Queue.run bound xs cs) bound
  unfolding run Queue.run
  run_steps [] r xs bound size h = (r, refl, h, size)
  run_steps (c ∷ cs) r xs bound size h =
      let (r', e, h', size') = step-Refines r xs bound c size h in
      let (r'', e', h'', size'') = run_steps cs r' (Queue.step bound xs c).1 bound size' h' in
      (r'', rw (e, e'), h'', size'')

  -- A ring made by `new` for a bound below the size of a `usize`, and then given any sequence of
  -- pushes and pops by one thread at a time, answers each as the FIFO of at most that many values
  -- does: no call panics, waits or has undefined behaviour, and the ring ends up holding what the
  -- FIFO holds.
  pub run-Refines :
      (bound : ℕ) (cs : List (Call A))
      → bound < usize_size
      → Refines (run (new bound) cs) (Queue.run bound [] cs) bound
  unfolding new
  run-Refines bound cs h =
      run_steps cs (new bound) [] bound (length-replicate bound none) (new-Holds bound h)
