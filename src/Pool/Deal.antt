-- ===== src/Pool/Deal.antt =====
-- `HoochPool::execute` (src/pool/thread_pool.rs) deals the closures out in turn.
use native.Mathlib.Nat.{mod_self, mod-eq_of_lt}
use native.Mathlib.Numerals.{add-one}
use hooch.Base.{
  ℕ, suc, ◌+◌, ◌%◌, ◌≤◌, ◌<◌, ◌≡◌, ◌∙◌, true, false, some, List, [], ◌∷◌, ◌++◌, append-nil,
  append_assoc, length, length-append, get_elem?, arith, ◌==◌, update, usize_size, done, Returns,
  Returns-map, Bool-cases, inl, inr,
}
use hooch.SyncChannel.{send-room}
use hooch.Pool.{Pool, get_and_update_index, execute, execute_all}
use hooch.Pool.Rotation.{after, dealt, dealt-nil, dealt-cons}

module _ {F : Type 0} where
  pub record IsValid (p : Pool F) : Type 0 where
    pub small : p.pool.num_threads < usize_size
    pub cursor_in : p.pool.cursor < p.pool.num_threads
    pub senders : (w : ℕ) → w < p.pool.num_threads → get_elem? p.pool.senders w ≡ some w
    pub receivers : (w : ℕ) → w < p.pool.num_threads → (p.channels w).receiver ≡ true

  -- Every worker's channel has room for what it will be given.
  abbrev pub HasRoom : Pool F → List F → Type 0
  HasRoom p fs =
      (w : ℕ)
      → w < p.pool.num_threads
      → length (p.channels w).queue + length (dealt p.pool.num_threads p.pool.cursor w fs)
        ≤ (p.channels w).bound

  -- The pool after `execute` has given `f` to the worker at the cursor.
  abbrev pub given : Pool F → F → Pool F
  given p f = record {
    pool = record (p.pool) { cursor = after p.pool.num_threads p.pool.cursor };
    channels =
        update p.channels p.pool.cursor (record (p.channels p.pool.cursor) {
          queue = (p.channels p.pool.cursor).queue ++ f ∷ [];
        });
  }

  pub execute-eq-given :
      (p : Pool F) (f : F)
      → IsValid p
      → length (p.channels p.pool.cursor).queue < (p.channels p.pool.cursor).bound
      → execute p f ≡ done (given p f)
  unfolding execute get_and_update_index
  execute-eq-given p f v room = rw (
    some_threads,
    v.senders _ v.cursor_in,
    next,
    send-room (p.channels p.pool.cursor) f (v.receivers _ v.cursor_in) room,
  )
    where
      no_wrap : (p.pool.cursor + 1) % usize_size ≡ p.pool.cursor + 1
      no_wrap = omega (arith, v.small, v.cursor_in)

      some_threads : (p.pool.num_threads == 0) ≡ false
      some_threads = ground (arith, v.cursor_in)

      next :
          (p.pool.cursor + 1) % usize_size % p.pool.num_threads
          ≡ after p.pool.num_threads p.pool.cursor
      next =
          rw (no_wrap, add-one)
            (elim (Bool-cases (suc p.pool.cursor == p.pool.num_threads)) [
              | inl last ↦
                  let at : suc p.pool.cursor ≡ p.pool.num_threads = ground arith in
                  rw last (rw at (mod_self p.pool.num_threads))
              | inr other ↦ rw other (mod-eq_of_lt (ground (arith, v.cursor_in)))
            ])

  given-IsValid : (p : Pool F) (f : F) → IsValid p → IsValid (given p f)
  given-IsValid p f v = record {
    small = v.small;
    cursor_in = ground (arith, v.cursor_in);
    senders = v.senders;
    receivers = λ w lt. ground (arith, v.receivers w lt, v.receivers p.pool.cursor v.cursor_in);
  }

  -- A valid pool that is given closures one after the other, with room for each worker's share in
  -- its channel, takes them all: no call panics or waits, the pool stays valid, and each worker's
  -- queue grows by the closures that fall to it when they are dealt out in turn from the cursor on.
  pub execute_all_deals :
      (fs : List F) (p : Pool F)
      → IsValid p
      → HasRoom p fs
      → Returns
          (λ p'.
            IsValid p'
            × ((w : ℕ)
                → w < p.pool.num_threads
                → (p'.channels w).queue
                  ≡ (p.channels w).queue ++ dealt p.pool.num_threads p.pool.cursor w fs))
          (execute_all p fs)
  unfolding execute_all
  execute_all_deals [] p v room = (v, λ w lt. rw (dealt-nil F _ _ w, append-nil))
  execute_all_deals (f ∷ fs) p v room = rw (execute-eq-given p f v here) (
      Returns-map _ _ (execute_all (given p f) fs)
        (execute_all_deals fs (given p f) (given-IsValid p f v) later)
        (λ p' _ (v', queues). (v', λ w lt. queues w lt ∙ joined w)))
    where
      n : ℕ
      n = p.pool.num_threads

      here : length (p.channels p.pool.cursor).queue < (p.channels p.pool.cursor).bound
      here =
          ground
            (arith, room p.pool.cursor v.cursor_in, dealt-cons n p.pool.cursor p.pool.cursor f fs)

      later : HasRoom (given p f) fs
      later w lt = ground (
        arith,
        room w lt,
        dealt-cons n p.pool.cursor w f fs,
        length-append (p.channels w).queue (f ∷ []),
      )

      joined :
          (w : ℕ)
          → ((given p f).channels w).queue ++ dealt n (after n p.pool.cursor) w fs
            ≡ (p.channels w).queue ++ dealt n p.pool.cursor w (f ∷ fs)
      joined w = ground (
        arith,
        dealt-cons n p.pool.cursor w f fs,
        append_assoc (p.channels w).queue (f ∷ []) (dealt n (after n p.pool.cursor) w fs),
      )
