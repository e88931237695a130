-- ===== src/Ring/Queue.antt =====
-- What `LockFreeBoundedRingBuffer` (src/utils/ring_buffer.rs) promises: a FIFO of bounded length.
-- It is an independent description, a list with the oldest value first.
use hooch.Base.{
  ℕ, Option, none, some, List, [], ◌∷◌, ◌++◌, ◌==◌, if◌then◌else◌, length, Result, ok, err,
}
use hooch.Ring.{PushError, buffer_full}

-- What a client asks of the buffer, and what it is told.
pub data Call {ℓ} (A : Type ℓ) : Type ℓ where
  put : A → Call A
  take : Call A

pub data Reply {ℓ} (A : Type ℓ) : Type ℓ where
  put_reply : Result (Unit {0}) PushError → Reply A
  take_reply : Option A → Reply A

module _ {ℓ} {A : Type ℓ} (cap : ℕ) where
  unfoldable pub step : List A → Call A → Reply A × List A
  step xs (put v) =
      if length xs == cap
      then (put_reply (err buffer_full), xs)
      else (put_reply (ok tt), xs ++ v ∷ [])
  step [] take = (take_reply none, [])
  step (x ∷ xs) take = (take_reply (some x), xs)

  unfoldable pub run : List A → List (Call A) → List (Reply A) × List A
  run xs [] = ([], xs)
  run xs (c ∷ cs) =
      let (reply, xs') = step xs c in let (replies, end) = run xs' cs in (reply ∷ replies, end)
