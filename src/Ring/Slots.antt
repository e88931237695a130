-- ===== src/Ring/Slots.antt =====
-- Where the values of a `LockFreeBoundedRingBuffer` (src/utils/ring_buffer.rs) stand in its buffer.
use hooch.Base.{
  ℕ, suc, ◌+◌, ◌-◌, ◌<◌, ◌≡◌, ◌≢◌, ◌∙◌, Option, none, some, List, [], ◌∷◌, ◌++◌, arith, ltb,
  if◌then◌else◌, length, get_elem?, set, get_elem?-set_self, get_elem?-set_ne,
}

-- The index `k` places after `s`, going round at `cap`.
abbrev pub position : ℕ → ℕ → ℕ → ℕ
position cap s k = if ltb (s + k) cap then s + k else s + k - cap

-- The index after `s`.
abbrev pub advance : ℕ → ℕ → ℕ
advance cap s = if ltb (s + 1) cap then s + 1 else 0

-- The slots from the `k`-th on hold the values `xs`, in order.
abbrev pub Stored {ℓ} : {A : Type ℓ} → List (Option A) → ℕ → ℕ → ℕ → List A → Type ℓ
Stored buf cap s k [] = Unit
Stored buf cap s k (x ∷ xs) =
    (get_elem? buf (position cap s k) ≡ some (some x)) × Stored buf cap s (suc k) xs

-- Fewer than `cap` steps apart, two positions differ.
position_ne : (cap s j k : ℕ) → s < cap → j < k → k < cap → position cap s k ≢ position cap s j
position_ne cap s j k hs hj hk = ground arith

position_in : (cap s k : ℕ) → s < cap → k < cap → position cap s k < cap
position_in cap s k hs hk = ground arith

-- A step on from `s` is a step less to go.
position-advance :
    (cap s k : ℕ) → s < cap → k < cap → position cap s (suc k) ≡ position cap (advance cap s) k
position-advance cap s k hs hk = ground arith

module _ {ℓ} {A : Type ℓ} (cap s : ℕ) (below : s < cap) where
  -- A write at the first free slot stores one more value.
  pub Stored-snoc :
      (buf : List (Option A)) (xs : List A) (k e : ℕ) (v : A)
      → length buf ≡ cap
      → k + length xs < cap
      → e ≡ position cap s (k + length xs)
      → Stored buf cap s k xs
      → Stored (set buf e (some v)) cap s k (xs ++ v ∷ [])
  Stored-snoc buf [] k e v size room at st =
      let e' : e ≡ position cap s k = ground arith in
      let inside : e < length buf = omega (arith, position_in cap s k) in
      (rw (← e') (get_elem?-set_self buf e (some v) inside), tt)
  Stored-snoc buf (x ∷ xs) k e v size room at (here, later) =
      let apart : e ≢ position cap s k =
        rw at (position_ne cap s k (k + length (x ∷ xs)) below (omega arith) room) in
      (
        get_elem?-set_ne buf e (position cap s k) (some v) apart ∙ here,
        Stored-snoc buf xs (suc k) e v size (omega arith) (ground arith) later,
      )

  -- Emptying the first slot, and starting one further on, leaves the other values stored.
  pub Stored-tail :
      (buf : List (Option A)) (xs : List A) (k : ℕ)
      → k + length xs < cap
      → Stored buf cap s (suc k) xs
      → Stored (set buf s none) cap (advance cap s) k xs
  Stored-tail buf [] k room st = tt
  Stored-tail buf (x ∷ xs) k room (here, later) =
      let apart : s ≢ position cap s (suc k) = ground arith in
      (
        rw (← position-advance cap s k below (omega arith))
            (get_elem?-set_ne buf s (position cap s (suc k)) none apart ∙ here),
        Stored-tail buf xs (suc k) (omega arith) later,
      )
