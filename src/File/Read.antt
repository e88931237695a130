-- ===== src/File/Read.antt =====
-- src/fs/file.rs, the reading of a `HoochFile` to its end.
use hooch.Base.{ℕ, List, Exec, done, ◌>>=◌, unwrap, Result, ok}
use hooch.Mio.{IoError}
use hooch.Reactor.{Waker, Poll, pending, ready}

-- What the operating system tells of an open file, by its handle: its size, and its contents from
-- where the handle stands, which are bytes.
pub record Contents : Type 1 where
  pub State : Type 0
  pub size : (file : ℕ) → State → Result ℕ IoError
  pub read_to_string : (file : ℕ) → State → Result (List ℕ) IoError × State

pub record AsyncReadToString : Type 0 where
  pub file : ℕ

module _ (contents : Contents) where
  open contents use {State}

  -- The size is asked for the capacity of the buffer only.
  unfoldable pub poll :
      AsyncReadToString → State → Waker → Exec (Poll (Result (List ℕ) IoError) × State)
  poll future s waker = do
    file_size ← unwrap (contents.size future.file s)
    let (got, s') = contents.read_to_string future.file s
    buffer ← unwrap got
    done (ready (ok buffer), s')

  -- `HoochFile::read_to_string`, whose future is ready at its first poll or panics.
  unfoldable pub read_to_string : (handle : ℕ) → State → Waker → Exec (Poll (List ℕ) × State)
  read_to_string handle s waker = do
    (answer, s') ← poll (record { file = handle }) s waker
    elim answer [
      | pending ↦ done (pending, s')
      | ready res ↦ (do buffer ← unwrap res; done (ready buffer, s'))
    ]
