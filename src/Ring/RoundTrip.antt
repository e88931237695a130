-- ===== src/Ring/RoundTrip.antt =====
-- The buffer of src/utils/ring_buffer.rs, filled and then emptied by one thread.
use hooch.Base.{
  ℕ, zero, suc, ◌+◌, ◌≡◌, ◌≤◌, ◌<◌, ◌∙◌, refl, sym, List, [], ◌∷◌, ◌++◌, append-nil, append_assoc,
  arith, length, length-append, Exec, done, ◌>>=◌, unwrap, unwrap_some,
}
use hooch.Ring.{Ring, capacity, push, pop}
use hooch.Ring.Fifo.{
  Holds, pushed, popped, capacity-popped, capacity-pushed, push-eq-pushed, pushed-Holds,
  pop-eq-popped, popped-Holds,
}

module _ {ℓ} {A : Type ℓ} where
  -- Each value is pushed, and each push must succeed.
  pub push_all : Ring A → List A → Exec (Ring A)
  push_all r [] = done r
  push_all r (x ∷ xs) = do (res, r') ← push r x; _ ← unwrap res; push_all r' xs

  -- `n` values are popped, and each must be there.
  pub pop_all : ℕ → Ring A → Exec (List A × Ring A)
  pop_all zero r = done ([], r)
  pop_all (suc n) r = do
    (value, r') ← pop r
    x ← unwrap_some value
    (xs, r'') ← pop_all n r'
    done (x ∷ xs, r'')

  push_all-Holds :
      (xs : List A) (r : Ring A) (ys : List A)
      → Holds r ys
      → length ys + length xs ≤ capacity r
      → (r' : Ring A) × (push_all r xs ≡ done r') × Holds r' (ys ++ xs) × (capacity r' ≡ capacity r)
  unfolding push_all
  push_all-Holds [] r ys h fits = (r, refl, rw (append-nil) h, refl)
  push_all-Holds (x ∷ xs) r ys h fits =
      let room : length ys < capacity r = omega (arith, fits) in
      let (r', e, h', size) =
        push_all-Holds xs (pushed r x) (ys ++ x ∷ []) (pushed-Holds r ys x h room)
          (omega (arith, fits, length-append ys (x ∷ []), capacity-pushed r x)) in
      (
        r',
        rw (push-eq-pushed r ys x h room, e),
        rw⁻¹ (append_assoc ys (x ∷ []) xs) h',
        size ∙ capacity-pushed r x,
      )

  pop_all-Holds :
      (xs : List A) (r : Ring A)
      → Holds r xs
      → (r' : Ring A) × (pop_all (length xs) r ≡ done (xs, r'))
        × Holds r' []
        × (capacity r' ≡ capacity r)
  unfolding pop_all
  pop_all-Holds [] r h = (r, refl, h, refl)
  pop_all-Holds (x ∷ xs) r h =
      let (r', e, h', size) = pop_all-Holds xs (popped r) (popped-Holds r x xs h) in
      (r', rw (pop-eq-popped r x xs h, e), h', size ∙ capacity-popped r)

  -- Wherever in its buffer a ring holds its values, let there be room for the values `xs` as well.
  -- Then one thread can push `xs`, each with success, and pop as many values as are there then:
  -- what it gets are the values that were there, followed by `xs`, in this order, and the ring is
  -- empty.
  pub fill_and_drain :
      (r : Ring A) (ys xs : List A)
      → Holds r ys
      → length ys + length xs ≤ capacity r
      → (r' : Ring A) × ((do r1 ← push_all r xs; pop_all (length ys + length xs) r1)
          ≡ done (ys ++ xs, r'))
        × Holds r' []
        × (capacity r' ≡ capacity r)
  fill_and_drain r ys xs h fits =
      let (r1, filled, h1, size1) = push_all-Holds xs r ys h fits in
      let (r', drained, h', size') = pop_all-Holds (ys ++ xs) r1 h1 in
      (r', rw (filled, sym (length-append ys xs)) drained, h', size' ∙ size1)
