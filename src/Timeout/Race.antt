-- ===== src/Timeout/Race.antt =====
-- Which of the two futures decides a `Timeout` (src/time/timeout.rs).
use hooch.Base.{
  ℕ, zero, suc, ◌≡◌, ◌∙◌, ◌+◌, ◌<◌, arith, ltb, if◌then◌else◌, Result, ok, err, Exec, done, blocked,
  ◌>>=◌,
}
use hooch.Reactor.{Poll, pending, ready}
use hooch.Timeout.{Timeout, TimeoutError, timeout_error, poll}

-- A future that is ready at its poll number `n`, counted from 0, with the value `v`.
pub record Due (A : Type 0) : Type 0 where
  pub polls_left : ℕ
  pub value : A

-- The world counts the polls of the first future.
abbrev pub poll_due : {A : Type 0} → Due A → ℕ → Exec (Poll A × Due A × ℕ)
poll_due d polls = done (
  elim d.polls_left [ zero ↦ ready d.value | suc n ↦ pending ],
  record d { polls_left = elim d.polls_left [ zero ↦ 0 | suc n ↦ n ] },
  polls,
)

abbrev pub poll_counted : {A : Type 0} → Due A → ℕ → Exec (Poll A × Due A × ℕ)
poll_counted d polls = poll_due d (suc polls)

-- The task polls until the timeout is ready, for a number of polls. `blocked` stands for more.
pub drive :
    {T : Type 0} → ℕ → Timeout (Due T) (Due (Unit {0})) → ℕ → Exec (Result T TimeoutError × ℕ)
drive zero t polls = blocked
drive (suc more) t polls = do
  (answer, t', polls') ← poll poll_counted poll_due t polls
  elim answer [ ready res ↦ done (res, polls') | pending ↦ drive more t' polls' ]

-- Let a future be ready at its poll number n and the sleep at its poll number m, both counted from
-- 0. A task that polls the timeout often enough gets the future's value if n < m, after n + 1 polls
-- of the future, and otherwise the timeout error, after m polls of it: the sleep wins a draw.
pub earlier_decides :
    {T : Type 0} (n m k polls : ℕ) (v : T)
    → (if ltb n m then n else m) < k
    → drive k
        (record {
          fut = record { polls_left = n; value = v };
          sleep = record { polls_left = m; value = tt };
        })
        polls
      ≡ done (if ltb n m then (ok v, polls + suc n) else (err timeout_error, polls + m))
unfolding drive poll
earlier_decides n m zero polls v h = elim h [ ]
earlier_decides n zero (suc k) polls v h = ground arith
earlier_decides zero (suc m) (suc k) polls v h = ground arith
earlier_decides (suc n) (suc m) (suc k) polls v h =
    earlier_decides n m k (suc polls) v (ground arith) ∙ ground arith
