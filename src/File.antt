-- ===== src/File.antt =====
-- src/fs/file.rs, the opening of a `HoochFile`.
pub mod Wakeups
pub mod Read
use hooch.Base.{
  ℕ, Bool, true, false, Option, none, some, if◌then◌else◌, Exec, done, ◌>>=◌, unwrap, unwrap_some,
  Result, ok, err,
}
use hooch.Mio.{IoError, MioWaker}
use hooch.Reactor
use hooch.Reactor.{Reactor, Waker, Poll, pending, ready}
use hooch.Pool
use hooch.Pool.{Pool}

-- `OpenOptions` are a number.
pub data FileOperation : Type 0 where
  create : FileOperation
  open_existing : FileOperation
  option : ℕ → FileOperation

-- The files of the operating system (`std::fs::File`): what an operation does to a path. A handle
-- is its file descriptor.
pub record Disk : Type 1 where
  pub State : Type 0
  pub perform : FileOperation → (path : ℕ) → State → Result ℕ IoError × State

-- `file_handle` is the shared cell, which only this future and its closure reach.
pub record AsyncHoochFile : Type 0 where
  pub path : ℕ
  pub file_operation : Option FileOperation
  pub reactor_tag : ℕ
  pub file_handle : Option (Result ℕ IoError)
  pub has_polled : Bool

-- The closure that `poll` makes.
pub record BlockFn : Type 0 where
  pub operation : FileOperation
  pub target : ℕ

-- The future with what it reaches.
pub record Opening (D M : Type 0) : Type 0 where
  pub file : AsyncHoochFile
  pub reactor : Reactor
  pub pool : Pool BlockFn
  pub disk : D
  pub mio : M

-- What `open`, `create` and `open_hooch` do before their first poll, each with its own operation.
unfoldable pub start : FileOperation → ℕ → Reactor → Exec (AsyncHoochFile × Reactor)
start operation path r =
    let (tag, r') = Reactor.generate_reactor_tag r in
    do
      r'' ← Reactor.register_reactor_tag r' tag
      done (
        record {
          path = path;
          file_operation = some operation;
          reactor_tag = tag;
          file_handle = none;
          has_polled = false;
        },
        r'',
      )

unfoldable pub open_file : ℕ → Reactor → Exec (AsyncHoochFile × Reactor)
open_file path r = start open_existing path r

unfoldable pub create_file : ℕ → Reactor → Exec (AsyncHoochFile × Reactor)
create_file path r = start create path r

unfoldable pub open_hooch : ℕ → ℕ → Reactor → Exec (AsyncHoochFile × Reactor)
open_hooch options path r = start (option options) path r

module _ {D M : Type 0} where
  -- The branch of `poll` for the first call.
  unfoldable pub first_poll : Opening D M → Waker → Exec (Opening D M)
  first_poll o waker = do
    r ← Reactor.register_reactor_tag o.reactor o.file.reactor_tag
    let r' = Reactor.store_waker_channel r o.file.reactor_tag waker
    operation ← unwrap_some o.file.file_operation
    pool ← Pool.execute o.pool (record { operation = operation; target = o.file.path })
    done (record o {
      file = record (o.file) { has_polled = true; file_operation = none };
      reactor = r';
      pool = pool;
    })

  unfoldable pub poll : Opening D M → Waker → Exec (Poll (Result ℕ IoError) × Opening D M)
  poll o waker =
      if o.file.has_polled
      then done (elim o.file.file_handle [
        | none ↦ (pending, o)
        | some result ↦ (ready result, record o { file = record (o.file) { file_handle = none } })
      ])
      else (do o' ← first_poll o waker; done (pending, o'))

module _ (disk : Disk) (mio : MioWaker) where
  -- The closure, when a worker of the pool runs it. `wake` is the waker of the reactor.
  unfoldable pub block_fn :
      BlockFn → Opening disk.State mio.State → Exec (Opening disk.State mio.State)
  block_fn f o =
      let (result, d) = disk.perform f.operation f.target o.disk in
      let (woke, m) = mio.wake o.mio in
      do
        _ ← unwrap woke
        done (record o { file = record (o.file) { file_handle = some result }; disk = d; mio = m })
