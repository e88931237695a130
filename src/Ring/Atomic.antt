-- ===== src/Ring/Atomic.antt =====
-- `push` and `pop` of src/utils/ring_buffer.rs as the accesses to the shared fields that they make,
-- one a step, so that the calls of several threads may interleave. Accesses take effect in the order
-- in which they are made: these runs are among those that Rust's memory model allows.
use hooch.Base.{
  ℕ, zero, suc, ◌+◌, ◌-◌, ◌%◌, ◌≡◌, Option, none, some, ◌==◌, if◌then◌else◌, usize_size, update,
  Exec, done, undefined, ◌>>=◌, Result, ok, err,
}
use hooch.Ring.{
  Ring, PushError, buffer_full, capacity, insert_value, get_value, next_end, next_start,
}

-- Where a thread stands in `push`, with its live locals.
pub data PushPc {ℓ} (A : Type ℓ) : Type ℓ where
  check_full : A → PushPc A
  load_end : A → PushPc A
  write : A → (current_end new_end : ℕ) → PushPc A
  add_count : (new_end : ℕ) → PushPc A
  store_end : (new_end : ℕ) → PushPc A
  returned : Result (Unit {0}) PushError → PushPc A

-- Where a thread stands in `pop`.
pub data PopPc {ℓ} (A : Type ℓ) : Type ℓ where
  load_start : PopPc A
  load_end : (current_start : ℕ) → PopPc A
  check_empty : (current_start current_end : ℕ) → PopPc A
  read : (current_start : ℕ) → PopPc A
  sub_count : A → (current_start : ℕ) → PopPc A
  store_start : A → (current_start : ℕ) → PopPc A
  returned : Option A → PopPc A

module _ {ℓ} {A : Type ℓ} where
  -- One access of `push`. A call that has returned does no more.
  unfoldable pub push_step : PushPc A → Ring A → Exec (PushPc A × Ring A)
  unfolding insert_value
  push_step (PushPc.check_full v) r =
      done
        (if r.count == capacity r then PushPc.returned (err buffer_full) else PushPc.load_end v, r)
  push_step (PushPc.load_end v) r = done (PushPc.write v r.end (next_end (capacity r) r.end), r)
  push_step (PushPc.write v e n) r = do r' ← insert_value r e v; done (PushPc.add_count n, r')
  push_step (PushPc.add_count n) r =
      done (PushPc.store_end n, record r { count = (r.count + 1) % usize_size })
  push_step (PushPc.store_end n) r = done (PushPc.returned (ok tt), record r { end = n })
  push_step (PushPc.returned res) r = done (PushPc.returned res, r)

  -- One access of `pop`. The counter is read only where the indices agree.
  unfoldable pub pop_step : PopPc A → Ring A → Exec (PopPc A × Ring A)
  unfolding get_value
  pop_step PopPc.load_start r = done (PopPc.load_end r.start, r)
  pop_step (PopPc.load_end s) r =
      done (if s == r.end then PopPc.check_empty s r.end else PopPc.read s, r)
  pop_step (PopPc.check_empty s e) r =
      done (if r.count == 0 then PopPc.returned none else PopPc.read s, r)
  pop_step (PopPc.read s) r = do (v, r') ← get_value r s; done (PopPc.sub_count v s, r')
  pop_step (PopPc.sub_count v s) r =
      done (PopPc.store_start v s, record r { count = (r.count + (usize_size - 1)) % usize_size })
  pop_step (PopPc.store_start v s) r =
      done (PopPc.returned (some v), record r { start = next_start (capacity r) s })
  pop_step (PopPc.returned res) r = done (PopPc.returned res, r)

  -- A call that no other thread interrupts, for a number of steps.
  unfoldable pub push_alone : ℕ → PushPc A → Ring A → Exec (PushPc A × Ring A)
  unfolding push_step
  push_alone zero pc r = done (pc, r)
  push_alone (suc n) pc r = do (pc', r') ← push_step pc r; push_alone n pc' r'

  unfoldable pub pop_alone : ℕ → PopPc A → Ring A → Exec (PopPc A × Ring A)
  unfolding pop_step
  pop_alone zero pc r = done (pc, r)
  pop_alone (suc n) pc r = do (pc', r') ← pop_step pc r; pop_alone n pc' r'

-- What a thread is doing.
pub data Thread {ℓ} (A : Type ℓ) : Type ℓ where
  pushing : PushPc A → Thread A
  popping : PopPc A → Thread A

abbrev pub continue_push {ℓ} : {A : Type ℓ} → Exec (PushPc A × Ring A) → Exec (Thread A × Ring A)
continue_push e = do (pc, r) ← e; done (pushing pc, r)

abbrev pub continue_pop {ℓ} : {A : Type ℓ} → Exec (PopPc A × Ring A) → Exec (Thread A × Ring A)
continue_pop e = do (pc, r) ← e; done (popping pc, r)

module _ {ℓ} {A : Type ℓ} where
  unfoldable pub thread_step : Thread A → Ring A → Exec (Thread A × Ring A)
  unfolding push_step pop_step
  thread_step (pushing pc) r = continue_push (push_step pc r)
  thread_step (popping pc) r = continue_pop (pop_step pc r)

-- Threads that share one ring. A producer makes pushes only, and a consumer pops only.
pub record Shared {ℓ} (A : Type ℓ) : Type ℓ where
  pub ring : Ring A
  pub threads : ℕ → Thread A

module _ {ℓ} {A : Type ℓ} where
  -- Any thread makes its next access, or starts its next call after the one that has returned.
  pub data Step (s : Shared A) : Shared A → Type ℓ where
    access :
        (i : ℕ) {t : Thread A} {r : Ring A}
        → thread_step (s.threads i) s.ring ≡ done (t, r)
        → Step s (record { ring = r; threads = update s.threads i t })
    next_push :
        (i : ℕ) (v : A) {res : Result (Unit {0}) PushError}
        → s.threads i ≡ pushing (PushPc.returned res)
        → Step s (record s { threads = update s.threads i (pushing (PushPc.check_full v)) })
    next_pop :
        (i : ℕ) {res : Option A}
        → s.threads i ≡ popping (PopPc.returned res)
        → Step s (record s { threads = update s.threads i (popping PopPc.load_start) })

  pub data Reach (s : Shared A) : Shared A → Type ℓ where
    here : Reach s s
    later : {t u : Shared A} → Reach s t → Step t u → Reach s u

  -- Some thread's next access has undefined behaviour.
  abbrev pub Faults : Shared A → Type ℓ
  Faults s = (i : ℕ) × (thread_step (s.threads i) s.ring ≡ undefined)
