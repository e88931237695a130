-- ===== src/Ring/Fifo.antt =====
-- A `LockFreeBoundedRingBuffer` (src/utils/ring_buffer.rs) that one thread uses, as the list of the
-- values that it holds, oldest first.
use native.Mathlib.Nat.{zero-add}
use hooch.Base.{
  ℕ, ◌+◌, ◌-◌, ◌%◌, ◌≤◌, ◌<◌, ◌≡◌, refl, Option, none, some, false, ◌&&◌, ◌==◌, List, [], ◌∷◌, ◌++◌,
  arith, usize_size, length, set, replicate, length-append, length-set, length-replicate, done, ok,
  err,
}
use hooch.Ring.{Ring, buffer_full, capacity, new, get_value, next_start, push, pop}
use hooch.Ring.Slots.{position, advance, Stored, Stored-snoc, Stored-tail}

pub record Holds {ℓ} {A : Type ℓ} (r : Ring A) (xs : List A) : Type ℓ where
  pub small : capacity r < usize_size
  pub counted : r.count ≡ length xs
  pub fits : length xs ≤ capacity r
  pub start_in : r.start ≤ capacity r - 1
  pub end_at : r.end ≡ position (capacity r) r.start (length xs)
  pub stored : Stored r.buffer (capacity r) r.start 0 xs

module _ {ℓ} {A : Type ℓ} where
  -- The ring after a `push` that finds room, and after a `pop` that finds a value.
  unfoldable pub pushed : Ring A → A → Ring A
  pushed r v = record r {
    buffer = set r.buffer r.end (some v);
    count = r.count + 1;
    end = advance (capacity r) r.end;
  }

  unfoldable pub popped : Ring A → Ring A
  popped r = record r {
    buffer = set r.buffer r.start none;
    count = r.count - 1;
    start = advance (capacity r) r.start;
  }

  pub capacity-pushed : (r : Ring A) (v : A) → capacity (pushed r v) ≡ capacity r
  unfolding pushed
  capacity-pushed r v = length-set r.buffer r.end (some v)

  pub capacity-popped : (r : Ring A) → capacity (popped r) ≡ capacity r
  unfolding popped
  capacity-popped r = length-set r.buffer r.start none

  -- Both indices lie in the buffer as soon as it has a slot.
  pub in_bounds :
      (r : Ring A) (xs : List A)
      → Holds r xs
      → 0 < capacity r
      → (r.start < capacity r) × (r.end < capacity r)
  in_bounds r xs h room = ground arith

  pub new-Holds : (bound : ℕ) → bound < usize_size → Holds {A = A} (new bound) []
  unfolding new
  new-Holds bound h = record {
    small = rw size h;
    counted = refl;
    fits = omega arith;
    start_in = omega arith;
    end_at = ground arith;
    stored = tt;
  }
    where
      empty_slot : Option A
      empty_slot = none

      size : length (replicate bound empty_slot) ≡ bound
      size = length-replicate bound empty_slot

  pub push-full :
      (r : Ring A) (xs : List A) (v : A)
      → Holds r xs
      → length xs ≡ capacity r
      → push r v ≡ done (err buffer_full, r)
  unfolding push
  push-full r xs v h full = ground arith

  pub push-eq-pushed :
      (r : Ring A) (xs : List A) (v : A)
      → Holds r xs
      → length xs < capacity r
      → push r v ≡ done (ok tt, pushed r v)
  unfolding push pushed
  push-eq-pushed r xs v h room = ground (arith, in_bounds r xs h)

  pub pushed-Holds :
      (r : Ring A) (xs : List A) (v : A)
      → Holds r xs
      → length xs < capacity r
      → Holds (pushed r v) (xs ++ v ∷ [])
  unfolding pushed
  pushed-Holds r xs v h room = record {
    small = rw size h.small;
    counted = omega (arith, longer);
    fits = omega (arith, longer, size);
    start_in = omega (arith, size);
    end_at = rw (size, longer) (ground (arith, in_bounds r xs h));
    stored = rw size (
        Stored-snoc (capacity r) r.start (in_bounds r xs h (omega arith)).0 r.buffer xs 0 r.end v
          refl (omega arith) (rw zero-add h.end_at) h.stored);
  }
    where
      size : capacity (pushed r v) ≡ capacity r
      size = length-set r.buffer r.end (some v)

      longer : length (xs ++ v ∷ []) ≡ length xs + 1
      longer = omega (arith, length-append xs (v ∷ []))

  pub pop-empty : (r : Ring A) → Holds r [] → pop r ≡ done (none, r)
  unfolding pop
  pop-empty r h = ground arith

  pub pop-eq-popped :
      (r : Ring A) (x : A) (xs : List A) → Holds r (x ∷ xs) → pop r ≡ done (some x, popped r)
  unfolding pop popped
  pop-eq-popped r x xs h = rw (some_left, first, less, onward)
    where
      some_left : ((r.start == r.end) && (r.count == 0)) ≡ false
      some_left = ground arith

      first : get_value r r.start ≡ done (x, record r { buffer = set r.buffer r.start none })
      first = ground (arith, in_bounds r (x ∷ xs) h)

      less : (r.count + (usize_size - 1)) % usize_size ≡ r.count - 1
      less = omega arith

      onward : next_start (capacity r) r.start ≡ advance (capacity r) r.start
      onward = ground (arith, in_bounds r (x ∷ xs) h)

  pub popped-Holds : (r : Ring A) (x : A) (xs : List A) → Holds r (x ∷ xs) → Holds (popped r) xs
  unfolding popped
  popped-Holds r x xs h = record {
    small = rw size h.small;
    counted = omega arith;
    fits = omega (arith, size);
    start_in = rw size (ground (arith, in_bounds r (x ∷ xs) h));
    end_at = rw size (ground (arith, in_bounds r (x ∷ xs) h));
    stored = rw size (
        Stored-tail _ _ (in_bounds r (x ∷ xs) h (omega arith)).0 r.buffer xs 0 (omega arith)
          h.stored.1);
  }
    where
      size : capacity (popped r) ≡ capacity r
      size = length-set r.buffer r.start none
