-- ===== src/Reactor/Tokens.antt =====
-- The tokens and the tags that src/reactor.rs gives out.
use hooch.Base.{ℕ, zero, suc, ◌+◌, ◌-◌, ◌%◌, ◌<◌, ◌≡◌, ◌≢◌, ◌∙◌, arith, usize_size}
use hooch.Reactor.{Reactor, init, waker_token, unique_token, generate_reactor_tag}

-- The token that the `i`-th call of `unique_token` gives, counted from 0, and the tag of the `i`-th
-- call of `generate_reactor_tag`.
pub nth_token : ℕ → Reactor → ℕ
nth_token zero r = (unique_token r).0
nth_token (suc i) r = nth_token i (unique_token r).1

pub nth_tag : ℕ → Reactor → ℕ
nth_tag zero r = (generate_reactor_tag r).0
nth_tag (suc i) r = nth_tag i (generate_reactor_tag r).1

nth_token_lem :
    (i : ℕ) (r : Reactor)
    → r.next_token < usize_size
    → nth_token i r ≡ (r.next_token + i) % usize_size
unfolding nth_token unique_token
nth_token_lem zero r small = omega arith
nth_token_lem (suc i) r small = nth_token_lem i (unique_token r).1 (omega arith) ∙ omega arith

nth_tag_lem :
    (i : ℕ) (r : Reactor) → r.next_tag < usize_size → nth_tag i r ≡ (r.next_tag + i) % usize_size
unfolding nth_tag generate_reactor_tag
nth_tag_lem zero r small = omega arith
nth_tag_lem (suc i) r small = nth_tag_lem i (generate_reactor_tag r).1 (omega arith) ∙ omega arith

-- Of the tokens and tags that a new reactor gives out, the first 2 ^ 64 - 1 of each kind are
-- distinct, and none of these tokens is the one of the reactor's own waker.
pub tokens_unique :
    (i j : ℕ)
    → i < j
    → j < usize_size - 1
    → (nth_token i init ≢ nth_token j init)
      × (nth_token i init ≢ waker_token)
      × (nth_token j init ≢ waker_token)
      × (nth_tag i init ≢ nth_tag j init)
unfolding init
tokens_unique i j h small = (
  λ e. omega (arith, e, nth_token_lem i init, nth_token_lem j init),
  λ e. omega (arith, e, nth_token_lem i init),
  λ e. omega (arith, e, nth_token_lem j init),
  λ e. omega (arith, e, nth_tag_lem i init, nth_tag_lem j init),
)
