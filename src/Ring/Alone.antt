-- ===== src/Ring/Alone.antt =====
-- The accesses of a call in src/utils/ring_buffer.rs that no other thread interrupts.
use hooch.Base.{
  ℕ, zero, suc, ◌+◌, ◌-◌, ◌%◌, ◌≡◌, refl, none, some, Option, done, Exec, ◌>>=◌, inl, inr,
  Bool-cases, ◌==◌, ltb, get_elem?, usize_size, length-set,
}
use hooch.Ring.{Ring, capacity, push, pop, get_value, next_start}
use hooch.Ring.Atomic.{PushPc, PopPc, push_alone, pop_alone}

module _ {ℓ} {A : Type ℓ} where
  push_alone-eq-push :
      (r : Ring A) (v : A)
      → push_alone 5 (PushPc.check_full v) r
        ≡ (do (res, r') ← push r v; done (PushPc.returned res, r'))
  unfolding push_alone push
  push_alone-eq-push r v = elim (Bool-cases (r.count == capacity r)) [
    | inl full ↦ rw full
    | inr room ↦ rw room (elim (Bool-cases (ltb r.end (capacity r))) [
      | inl inside ↦ rw inside
      | inr outside ↦ rw outside
    ])
  ]

  -- `pop` from its read of the slot on.
  rest_of_pop : Ring A → Exec (Option A × Ring A)
  rest_of_pop r = do
    (value, r') ← get_value r r.start
    done (
      some value,
      record r' {
        count = (r.count + (usize_size - 1)) % usize_size;
        start = next_start (capacity r) r.start;
      },
    )

  pop_alone-returned :
      (n : ℕ) (res : Option A) (r : Ring A)
      → pop_alone n (PopPc.returned res) r ≡ done (PopPc.returned res, r)
  unfolding pop_alone
  pop_alone-returned zero res r = refl
  pop_alone-returned (suc n) res r = pop_alone-returned n res r

  pop_alone-rest :
      (n : ℕ) (r : Ring A) (slot : Option (Option A))
      → get_elem? r.buffer r.start ≡ slot
      → pop_alone (suc (suc (suc n))) (PopPc.read r.start) r
        ≡ (do (res, r') ← rest_of_pop r; done (PopPc.returned res, r'))
  unfolding pop_alone rest_of_pop get_value
  pop_alone-rest n r none e = rw (e, get_value)
  pop_alone-rest n r (some none) e = rw (e, get_value)
  pop_alone-rest n r (some (some v)) e =
      rw (e, get_value) (rw (length-set r.buffer r.start none) (pop_alone-returned n (some v) _))

  pop_alone-eq-pop :
      (r : Ring A)
      → pop_alone 6 PopPc.load_start r ≡ (do (res, r') ← pop r; done (PopPc.returned res, r'))
  unfolding pop_alone pop rest_of_pop
  pop_alone-eq-pop r = elim (Bool-cases (r.start == r.end)) [
    | inl same ↦ rw same (elim (Bool-cases (r.count == 0)) [
      | inl nil ↦ rw nil
      | inr more ↦ rw more (pop_alone-rest 0 r _ refl)
    ])
    | inr apart ↦ rw apart (pop_alone-rest 1 r _ refl)
  ]

  -- The accesses of a `push` that no other thread interrupts, five at most, are the `push` as a
  -- whole, in whatever state the ring is; so are those of a `pop`, six at most.
  pub calls_alone :
      (r : Ring A) (v : A)
      → (push_alone 5 (PushPc.check_full v) r
          ≡ (do (res, r') ← push r v; done (PushPc.returned res, r')))
        × (pop_alone 6 PopPc.load_start r ≡ (do (res, r') ← pop r; done (PopPc.returned res, r')))
  calls_alone r v = (push_alone-eq-push r v, pop_alone-eq-pop r)
