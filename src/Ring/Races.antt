-- ===== src/Ring/Races.antt =====
-- Interleavings of calls on one buffer of src/utils/ring_buffer.rs.
use hooch.Base.{
  ℕ, suc, ◌+◌, ◌%◌, ◌≡◌, ◌≤◌, refl, ◌∙◌, none, some, List, true, false, done, ◌==◌, ltb, ok, update,
  get_elem?, set, usize_size, length, length-set, get_elem?-set_self, arith,
}
use hooch.Ring.{Ring, capacity, next_start, new, next_end}
use hooch.Ring.Fifo.{Holds, in_bounds}
use hooch.Ring.Atomic.{
  PushPc, PopPc, pushing, popping, thread_step, Shared, Step, access, next_pop, Reach, here, later,
  Faults,
}

module _ {ℓ} {A : Type ℓ} where
  -- Thread 0 is about to push `v`, and every other thread is about to pop.
  abbrev pub producer_consumer : Ring A → A → Shared A
  producer_consumer r v = record {
    ring = r;
    threads = update (λ _. popping PopPc.load_start) 0 (pushing (PushPc.check_full v));
  }

  -- Threads 0 and 1 are about to push `v` and `w`.
  abbrev pub two_producers : Ring A → A → A → Shared A
  two_producers r v w = record {
    ring = r;
    threads = update (λ _. pushing (PushPc.check_full w)) 0 (pushing (PushPc.check_full v));
  }

  infixl 5 ◌|>◌
  abbrev ◌|>◌ : {s t u : Shared A} → Reach s t → Step t u → Reach s u
  r |> m = later r m

  -- The accesses that turn on a test, once the test is known.
  check_room :
      (r : Ring A) (v : A)
      → (r.count == capacity r) ≡ false
      → thread_step (pushing (PushPc.check_full v)) r ≡ done (pushing (PushPc.load_end v), r)
  unfolding thread_step
  check_room r v h = rw h

  write_inside :
      (r : Ring A) (v : A) (e n : ℕ)
      → ltb e (capacity r) ≡ true
      → thread_step (pushing (PushPc.write v e n)) r
        ≡ done (pushing (PushPc.add_count n), record r { buffer = set r.buffer e (some v) })
  unfolding thread_step
  write_inside r v e n h = rw h

  move_start :
      (r : Ring A) (v : A) (k m : ℕ)
      → next_start (capacity r) k ≡ m
      → thread_step (popping (PopPc.store_start v k)) r
        ≡ done (popping (PopPc.returned (some v)), record r { start = m })
  unfolding thread_step
  move_start r v k m h = rw h

  -- A ring with two slots or more, one producer and one consumer that pops twice: some interleaving
  -- of their accesses makes the consumer read a slot that holds no value, which is undefined
  -- behaviour.
  pub producer_consumer-Faults :
      (n : ℕ) (v : A)
      → (s : Shared A) × Reach (producer_consumer (new (suc (suc n))) v) s × Faults s
  unfolding new thread_step
  producer_consumer-Faults n v = (
    _,
    here
        |> access 0 (check_room r v room)
        |> access 0 refl
        |> access 0 (write_inside r v 0 (next_end (capacity r) 0) inside)
        |> access 0 refl
        |> access 1 refl
        |> access 1 refl
        |> access 1 refl
        |> access 1 refl
        |> access 1 refl
        |> access 1 (move_start emptied v 0 1 onward)
        |> next_pop 1 refl
        |> access 1 refl
        |> access 1 refl,
    (1, refl),
  )
    where
      r : Ring A
      r = new (suc (suc n))

      emptied : Ring A
      emptied = record r { buffer = set (set r.buffer 0 (some v)) 0 none; count = 0 }

      room : (0 == capacity r) ≡ false
      room = ground arith

      inside : ltb 0 (capacity r) ≡ true
      inside = ground arith

      onward : next_start (capacity r) 0 ≡ 1
      onward = ground arith

  -- A ring that counts two values more, and whose `end` has moved by one only, holds no list.
  stale_end :
      (r q : Ring A) (xs ys : List A)
      → Holds r xs
      → length xs + 2 ≤ capacity r
      → q.start ≡ r.start
      → capacity q ≡ capacity r
      → q.count ≡ r.count + 2
      → q.end ≡ next_end (capacity r) r.end
      → ¬ Holds q ys
  stale_end r q xs ys h space start size count end held = ground (arith, in_bounds r xs h)

  -- Two pushes can interleave on a ring with room for both so that each returns `Ok` and the
  -- counter grows by two, but the second value has replaced the first: what is left is no ring that
  -- holds a list.
  pub two_producers_lose :
      (r : Ring A) (xs : List A) (v w : A)
      → Holds r xs
      → length xs + 2 ≤ capacity r
      → (s : Shared A) × Reach (two_producers r v w) s
        × (s.threads 0 ≡ pushing (PushPc.returned (ok tt)))
        × (s.threads 1 ≡ pushing (PushPc.returned (ok tt)))
        × (s.ring.count ≡ r.count + 2)
        × (get_elem? s.ring.buffer r.end ≡ some (some w))
        × ((ys : List A) → ¬ Holds s.ring ys)
  unfolding thread_step
  two_producers_lose r xs v w h space = (
    _,
    here
        |> access 0 (check_room r v room)
        |> access 1 (check_room r w room)
        |> access 0 refl
        |> access 1 refl
        |> access 0 (write_inside r v r.end n inside)
        |> access 1 (write_inside (written v r) w r.end n (rw size inside))
        |> access 0 refl
        |> access 1 refl
        |> access 0 refl
        |> access 1 refl,
    refl,
    refl,
    counted,
    get_elem?-set_self _ r.end (some w) (rw size (in_bounds r xs h (omega arith)).1),
    λ ys. stale_end r _ xs ys h space refl (length-set _ r.end (some w) ∙ size) counted refl,
  )
    where
      n : ℕ
      n = next_end (capacity r) r.end

      size : length (set r.buffer r.end (some v)) ≡ capacity r
      size = length-set r.buffer r.end (some v)

      counted : ((r.count + 1) % usize_size + 1) % usize_size ≡ r.count + 2
      counted = omega arith

      written : A → Ring A → Ring A
      written x q = record q { buffer = set q.buffer r.end (some x) }

      room : (r.count == capacity r) ≡ false
      room = ground arith

      inside : ltb r.end (capacity r) ≡ true
      inside = ground (arith, in_bounds r xs h)
