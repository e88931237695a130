-- ===== src/Ring.antt =====
-- src/utils/ring_buffer.rs, `LockFreeBoundedRingBuffer`, with each method run to its end.
pub mod Slots
pub mod Queue
pub mod Fifo
pub mod Refine
pub mod RoundTrip
pub mod Atomic
pub mod Alone
pub mod Races
use hooch.Base.{
  ℕ, ◌+◌, ◌-◌, ◌*◌, ◌%◌, Bool, ◌&&◌, Option, none, some, List, ltb, leb, ◌==◌, if◌then◌else◌,
  usize_size, length, get_elem?, set, replicate, Exec, done, undefined, ◌>>=◌, Result, ok, err,
}

-- The fields of the struct. A slot is `none` while it is `MaybeUninit::uninit()`.
pub record Ring {ℓ} (A : Type ℓ) : Type ℓ where
  pub buffer : List (Option A)
  pub start : ℕ
  pub end : ℕ
  pub count : ℕ

-- The `String` "Buffer is full".
pub data PushError : Type 0 where
  buffer_full : PushError

abbrev pub default_buffer_size : ℕ
default_buffer_size = 1024 * 1024

-- The next index of a `push` and of a `pop`, in a buffer of capacity `cap`.
abbrev pub next_end : ℕ → ℕ → ℕ
next_end cap current_end =
    if ltb ((current_end + 1) % usize_size) cap then (current_end + 1) % usize_size else 0

abbrev pub next_start : ℕ → ℕ → ℕ
next_start cap current_start =
    if leb cap ((current_start + 1) % usize_size) then 0 else (current_start + 1) % usize_size

module _ {ℓ} {A : Type ℓ} where
  unfoldable pub new : ℕ → Ring A
  new bound = record { buffer = replicate bound none; start = 0; end = 0; count = 0 }

  pub default : Ring A
  unfolding new
  default = new default_buffer_size

  -- `Vec::capacity` of a vector that is collected from `bound` items, of a type that takes room, as all
  -- are that the repository puts there.
  abbrev pub capacity : Ring A → ℕ
  capacity r = length r.buffer

  abbrev pub len : Ring A → ℕ
  len r = r.count

  abbrev pub is_empty : Ring A → Bool
  is_empty r = len r == 0

  -- A write past the allocation is undefined behaviour.
  pub insert_value : Ring A → ℕ → A → Exec (Ring A)
  insert_value r idx value =
      if ltb idx (length r.buffer)
      then done (record r { buffer = set r.buffer idx (some value) })
      else undefined

  unfoldable pub push : Ring A → A → Exec (Result (Unit {0}) PushError × Ring A)
  unfolding insert_value
  push r value = if len r == capacity r then done (err buffer_full, r) else do
    r' ← insert_value r r.end value
    done
        (ok tt, record r' { count = (r.count + 1) % usize_size; end = next_end (capacity r) r.end })

  -- So is a read past it, and `assume_init` of a slot that holds no value.
  pub get_value : Ring A → ℕ → Exec (A × Ring A)
  get_value r idx = elim (get_elem? r.buffer idx) [
    | some (some value) ↦ done (value, record r { buffer = set r.buffer idx none })
    | some none ↦ undefined
    | none ↦ undefined
  ]

  unfoldable pub pop : Ring A → Exec (Option A × Ring A)
  unfolding get_value
  pop r = if (r.start == r.end) && (r.count == 0) then done (none, r) else do
    (value, r') ← get_value r r.start
    done (
      some value,
      record r' {
        count = (r.count + (usize_size - 1)) % usize_size;
        start = next_start (capacity r) r.start;
      },
    )
