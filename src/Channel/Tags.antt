-- ===== src/Channel/Tags.antt =====
-- The tag of a channel in the reactor, over the lives of its senders: `Clone` and `Drop` of
-- `BoundedSender` (src/sync/mpsc/bounded_channel.rs).
use hooch.Base.{ℕ, ◌+◌, ◌-◌, ◌<◌, ◌≡◌, refl, ◌∙◌, List, [], ◌∷◌, length, arith, usize_size}
use hooch.Channel.{Linked, clone, drop}

pub data Life : Type 0 where
  cloned dropped : Life

-- Only a sender that is alive is cloned or dropped, and `n` of them are.
abbrev pub IsPossible : ℕ → List Life → Type 0
IsPossible n [] = Unit
IsPossible n (cloned ∷ ls) = (0 < n) × IsPossible (n + 1) ls
IsPossible n (dropped ∷ ls) = (0 < n) × IsPossible (n - 1) ls

pub alive : ℕ → List Life → ℕ
alive n [] = n
alive n (cloned ∷ ls) = alive (n + 1) ls
alive n (dropped ∷ ls) = alive (n - 1) ls

module _ {T M : Type 0} where
  pub live : Linked T M → List Life → Linked T M
  live s [] = s
  live s (cloned ∷ ls) = live (clone s) ls
  live s (dropped ∷ ls) = live (drop s) ls

  -- Take a channel whose counter and inner channel both count n senders. Over any sequence of
  -- clones and drops of senders that are alive, fewer than 2 ^ 64 in all, the two go on counting
  -- the senders alive, and the reactor never changes: the drop of the last sender does not remove
  -- the tag.
  pub live_keeps_tag :
      (ls : List Life) (s : Linked T M) (n : ℕ)
      → s.channel.clone_count ≡ n
      → s.channel.inner.senders ≡ n
      → n + length ls < usize_size
      → IsPossible n ls
      → ((live s ls).reactor ≡ s.reactor)
        × ((live s ls).channel.clone_count ≡ alive n ls)
        × ((live s ls).channel.inner.senders ≡ alive n ls)
  unfolding live alive clone drop
  live_keeps_tag [] s n count senders small possible = (refl, count, senders)
  live_keeps_tag (cloned ∷ ls) s n count senders small possible =
      live_keeps_tag ls (clone s) (n + 1) (omega arith) (omega arith) (omega arith) possible.1
  live_keeps_tag (dropped ∷ ls) s n count senders small possible =
      let (kept, count', senders') =
        live_keeps_tag ls (drop s) (n - 1) (omega arith) (omega arith) (omega arith) possible.1 in
      (kept ∙ ground arith, count', senders')
