-- ===== src/Net/Offload.antt =====
-- `HoochTcpListener::bind` (src/net/tcp/listener.rs) and `HoochTcpStream::connect`
-- (src/net/tcp/stream.rs), whose futures hand a blocking call to the pool.
use hooch.Base.{
  ℕ, ◌≡◌, ◌<◌, refl, arith, Bool, true, false, Option, none, some, if◌then◌else◌, [], ◌∷◌, ◌++◌,
  length, Exec, done, ◌>>=◌, unwrap_some, Result, ok, err, Returns,
}
use hooch.Mio.{IoError}
use hooch.Reactor
use hooch.Reactor.{Reactor, Waker, Poll, pending, ready}
use hooch.Pool
use hooch.Pool.{Pool}
use hooch.Pool.Deal.{IsValid, execute-eq-given}
use hooch.Net.{Sockets, Socket, register_socket}

-- `AsyncHoochTcpListener` and `AsyncHoochTcpStream`. `addr` is what the address resolves to, if
-- anything, and `state` is the shared cell.
pub record AsyncSocket : Type 0 where
  pub addr : Option ℕ
  pub state : Option (Result ℕ IoError)
  pub has_polled : Bool

-- The closure `connect_fn`: the address, and the waker that it wakes at the end.
pub record ConnectFn : Type 0 where
  pub socket_addr : ℕ
  pub waker : Waker

pub record Connecting (S : Type 0) : Type 0 where
  pub future : AsyncSocket
  pub pool : Pool ConnectFn
  pub net : S

-- `poll` of either future.
unfoldable pub poll :
    {S : Type 0} → Connecting S → Waker → Exec (Poll (Result ℕ IoError) × Connecting S)
poll c waker =
    if c.future.has_polled
    then done (elim c.future.state [
      | none ↦ (pending, c)
      | some result ↦ (ready result, record c { future = record (c.future) { state = none } })
    ])
    else (do
      addr ← unwrap_some c.future.addr
      pool ← Pool.execute c.pool (record { socket_addr = addr; waker = waker })
      done (pending, record c { future = record (c.future) { has_polled = true }; pool = pool }))

-- `HoochTcpStream` repeats the code.
unfoldable pub poll_stream :
    {S : Type 0} → Connecting S → Waker → Exec (Poll (Result ℕ IoError) × Connecting S)
poll_stream c waker = poll c waker

module _ (net : Sockets) where
  open net use {State}

  -- The blocking calls of the two closures: the socket is made non-blocking before it is used.
  unfoldable pub then_nonblocking : Result ℕ IoError × State → Result ℕ IoError × State
  then_nonblocking (err e, s) = (err e, s)
  then_nonblocking (ok socket, s) =
      let (set, s') = net.set_nonblocking socket s in
      elim set [ err e ↦ (err e, s') | ok _ ↦ (ok socket, s') ]

  unfoldable pub bind_fn : ℕ → State → Result ℕ IoError × State
  bind_fn addr s = then_nonblocking (net.bind_tcp addr s)

  unfoldable pub connect_fn : ℕ → State → Result ℕ IoError × State
  connect_fn addr s = then_nonblocking (net.connect addr s)

  -- A worker of the pool runs a closure whose blocking call is `call`, and wakes the task.
  unfoldable pub run_fn :
      (ℕ → State → Result ℕ IoError × State)
      → ConnectFn
      → Connecting State
      → Waker × Connecting State
  run_fn call f c =
      let (result, s) = call f.socket_addr c.net in
      (f.waker, record c { future = record (c.future) { state = some result }; net = s })

  -- What `bind` and `connect` do before the first poll of their future: a tag that is registered, and
  -- never used.
  unfoldable pub start : Option ℕ → Reactor → Exec (AsyncSocket × Reactor)
  start addr r =
      let (tag, r') = Reactor.generate_reactor_tag r in
      do
        r'' ← Reactor.register_reactor_tag r' tag
        done (record { addr = addr; state = none; has_polled = false }, r'')

  -- What they do with the answer of the future.
  unfoldable pub finish :
      Result ℕ IoError → Reactor → State → Result Socket IoError × Reactor × State
  finish (err e) r s = (err e, r, s)
  finish (ok socket) r s = register_socket net socket r s

  unfoldable pub start_connect : Option ℕ → Reactor → Exec (AsyncSocket × Reactor)
  start_connect addr r = start addr r

  unfoldable pub finish_connect :
      Result ℕ IoError → Reactor → State → Result Socket IoError × Reactor × State
  finish_connect result r s = finish result r s

  -- Let a bind or a connect not be polled yet, its address resolve, and the next worker's channel
  -- have room. The first poll is pending and puts the closure at the end of the worker's channel; a
  -- poll before the closure runs is pending; the closure wakes the waker of the first poll, and the
  -- next poll is ready with the result of the blocking call.
  pub offload_completes :
      (call : ℕ → State → Result ℕ IoError × State) (c : Connecting State) (addr : ℕ)
      (w w' w'' : Waker)
      → c.future.has_polled ≡ false
      → c.future.state ≡ none
      → c.future.addr ≡ some addr
      → IsValid c.pool
      → length (c.pool.channels c.pool.pool.cursor).queue
        < (c.pool.channels c.pool.pool.cursor).bound
      → let f : ConnectFn = record { socket_addr = addr; waker = w } in
        Returns
          (λ (answer, c').
            (answer ≡ pending)
            × ((c'.pool.channels c.pool.pool.cursor).queue
                ≡ (c.pool.channels c.pool.pool.cursor).queue ++ f ∷ [])
            × Returns (λ (early, _). early ≡ pending) (poll c' w')
            × ((run_fn call f c').0 ≡ w)
            × Returns
                (λ (late, _). late ≡ ready (call addr c.net).0)
                (poll (run_fn call f c').1 w''))
          (poll c w)
  unfolding poll run_fn
  offload_completes call c addr w w' w'' new_one nothing at v room =
      rw (new_one, at, execute-eq-given c.pool (record { socket_addr = addr; waker = w }) v room)
        (refl, ground arith, rw nothing refl, refl, refl)
