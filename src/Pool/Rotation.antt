-- ===== src/Pool/Rotation.antt =====
-- Whose turn it is in `HoochPool` (src/pool/thread_pool.rs): an independent description.
use hooch.Base.{
  ℕ, suc, ◌+◌, ◌-◌, ◌≤◌, ◌<◌, ◌≡◌, refl, List, [], ◌∷◌, arith, leb, ◌==◌, if◌then◌else◌, length,
}

-- The worker after worker `c`, of `n`.
abbrev pub after : ℕ → ℕ → ℕ
after n c = if suc c == n then 0 else suc c

-- The closures that worker `w` gets, when they are dealt out in turn from worker `c` on.
unfoldable pub dealt : {F : Type 0} → ℕ → ℕ → ℕ → List F → List F
dealt n c w [] = []
dealt n c w (f ∷ fs) = let rest = dealt n (after n c) w fs in if c == w then f ∷ rest else rest

-- How many turns worker `w` waits from worker `c`'s turn on.
abbrev wait : ℕ → ℕ → ℕ → ℕ
wait n c w = if leb c w then w - c else n + w - c

-- Who waits less gets as many closures, or one more.
dealt_in_order :
    {F : Type 0} (n c v w : ℕ) (fs : List F)
    → c < n
    → v < n
    → w < n
    → wait n c v ≤ wait n c w
    → (length (dealt n c w fs) ≤ length (dealt n c v fs))
      × (length (dealt n c v fs) ≤ suc (length (dealt n c w fs)))
unfolding dealt
dealt_in_order n c v w [] hc hv hw h = omega arith
dealt_in_order n c v w (f ∷ fs) hc hv hw h =
    ground (arith, dealt_in_order n (after n c) v w fs, dealt_in_order n (after n c) w v fs)

-- Over any number of closures, no worker gets more than one closure more than another.
pub dealt_fair :
    {F : Type 0} (n c v w : ℕ) (fs : List F)
    → c < n
    → v < n
    → w < n
    → length (dealt n c v fs) ≤ suc (length (dealt n c w fs))
dealt_fair n c v w fs hc hv hw =
    ground (arith, dealt_in_order n c v w fs, dealt_in_order n c w v fs)

pub dealt-nil : (F : Type 0) (n c w : ℕ) → dealt {F = F} n c w [] ≡ []
unfolding dealt
dealt-nil F n c w = refl

pub dealt-cons :
    {F : Type 0} (n c w : ℕ) (f : F) (fs : List F)
    → dealt n c w (f ∷ fs)
      ≡ (if c == w then f ∷ dealt n (after n c) w fs else dealt n (after n c) w fs)
unfolding dealt
dealt-cons n c w f fs = refl

pub length-dealt_le : {F : Type 0} (n c w : ℕ) (fs : List F) → length (dealt n c w fs) ≤ length fs
unfolding dealt
length-dealt_le n c w [] = omega arith
length-dealt_le n c w (f ∷ fs) = ground (arith, length-dealt_le n (after n c) w fs)
