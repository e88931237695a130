-- ===== src/Net.antt =====
-- src/net/udp.rs, src/net/tcp/listener.rs and src/net/tcp/stream.rs.
pub mod Retries
pub mod Offload
use hooch.Base.{
  ℕ, zero, suc, Bool, true, false, Option, none, some, if◌then◌else◌, List, [], ◌∷◌, Exec, done,
  blocked, panicked, ◌>>=◌, unwrap_some, Result, ok, err,
}
use hooch.Mio.{IoError, would_block, other}
use hooch.Reactor
use hooch.Reactor.{Reactor, Waker, Poll, pending, ready}
use hooch.Reactor.Readiness.{Op, run}
use hooch.Pool
use hooch.Pool.{Pool}

-- The non-blocking sockets of the package `mio` and the blocking calls of `std::net`, whose code is
-- not in the repository. Sockets, addresses and buffers are numbers, and a datagram that comes in
-- has a length and an address.
pub record Sockets : Type 1 where
  pub State : Type 0
  pub send_to : (socket buf dest : ℕ) → State → Result ℕ IoError × State
  pub recv_from : (socket : ℕ) → State → Result (ℕ × ℕ) IoError × State
  pub read : (socket : ℕ) → State → Result ℕ IoError × State
  pub write : (socket buf : ℕ) → State → Result ℕ IoError × State
  pub accept : (socket : ℕ) → State → Result (ℕ × ℕ) IoError × State
  pub connect : (addr : ℕ) → State → Result ℕ IoError × State
  pub bind_udp : (addr : ℕ) → State → Result ℕ IoError × State
  pub bind_tcp : (addr : ℕ) → State → Result ℕ IoError × State
  pub set_nonblocking : (socket : ℕ) → State → Result (Unit {0}) IoError × State
  pub register : (socket token : ℕ) → State → Result (Unit {0}) IoError × State
  pub deregister : (socket : ℕ) → State → State

-- A socket with its token: `HoochUdpSocket`, `HoochTcpListener` and `HoochTcpStream`.
pub record Socket : Type 0 where
  pub socket : ℕ
  pub token : ℕ

-- Where the future of an asynchronous call stands: at the next attempt, or at the `await` of the
-- reactor's poll.
pub data LoopPc : Type 0 where
  attempting : LoopPc
  awaiting : LoopPc

module _ {V S : Type 0} (attempt : S → Result V IoError × S) (token : ℕ) where
  -- A poll of the future of `loop { match attempt … }`, which the calls of the sockets share: each turn
  -- is an attempt or a poll of the reactor, and before each other threads use the reactor, among them
  -- the event loop. `between` says how, for a number of turns. `blocked` stands for more turns.
  unfoldable pub poll_loop :
      List (List Op)
      → LoopPc
      → Reactor
      → S
      → Waker
      → Exec (Poll (Result V IoError) × LoopPc × Reactor × S)
  poll_loop [] pc r s waker = blocked
  poll_loop (others ∷ between) attempting r s waker =
      let r' = run r others in
      let (got, s') = attempt s in
      elim got [
        | ok value ↦ done (ready (ok value), attempting, r', s')
        | err would_block ↦ poll_loop between awaiting r' s' waker
        | err (other e) ↦ done (ready (err (other e)), attempting, r', s')
      ]
  poll_loop (others ∷ between) awaiting r s waker =
      let (progress, r') = Reactor.poll (run r others) token waker in
      elim progress [
        | pending ↦ done (pending, awaiting, r', s)
        | ready _ ↦ poll_loop between attempting r' s waker
      ]

module _ (net : Sockets) where
  open net use {State}

  unfoldable pub send_to :
      Socket
      → (buf dest : ℕ) → List (List Op)
      → LoopPc
      → Reactor
      → State
      → Waker
      → Exec (Poll (Result ℕ IoError) × LoopPc × Reactor × State)
  send_to s buf dest = poll_loop (net.send_to s.socket buf dest) s.token

  unfoldable pub recv_from :
      Socket
      → List (List Op)
      → LoopPc
      → Reactor
      → State
      → Waker
      → Exec (Poll (Result (ℕ × ℕ) IoError) × LoopPc × Reactor × State)
  recv_from s = poll_loop (net.recv_from s.socket) s.token

  unfoldable pub read :
      Socket
      → List (List Op)
      → LoopPc
      → Reactor
      → State
      → Waker
      → Exec (Poll (Result ℕ IoError) × LoopPc × Reactor × State)
  read s = poll_loop (net.read s.socket) s.token

  unfoldable pub write :
      Socket
      → (buf : ℕ) → List (List Op)
      → LoopPc
      → Reactor
      → State
      → Waker
      → Exec (Poll (Result ℕ IoError) × LoopPc × Reactor × State)
  write s buf = poll_loop (net.write s.socket buf) s.token

  -- A new token, and the registration of a socket with it.
  unfoldable pub register_socket : ℕ → Reactor → State → Result Socket IoError × Reactor × State
  register_socket socket r s =
      let (token, r') = Reactor.unique_token r in
      let (registered, s') = net.register socket token s in
      elim registered [
        | err e ↦ (err e, r', s')
        | ok _ ↦ (ok (record { socket = socket; token = token }), r', s')
      ]

  -- `HoochUdpSocket::bind`.
  unfoldable pub bind_udp : (addr : ℕ) → Reactor → State → Result Socket IoError × Reactor × State
  bind_udp addr r s =
      let (bound, s1) = net.bind_udp addr s in
      elim bound [
        | err e ↦ (err e, r, s1)
        | ok socket ↦
            (let (set, s2) = net.set_nonblocking socket s1 in
              elim set [ err e ↦ (err e, r, s2) | ok _ ↦ register_socket socket r s2 ])
      ]

  -- `Drop for HoochUdpSocket`.
  unfoldable pub drop : Socket → State → State
  drop socket s = net.deregister socket.socket s

  -- `HoochTcpListener::accept`, once its loop has an answer: a stream is registered with a token of
  -- its own.
  unfoldable pub accepted :
      Poll (Result (ℕ × ℕ) IoError)
      → Reactor
      → State
      → Poll (Result (Socket × ℕ) IoError) × Reactor × State
  accepted pending r s = (pending, r, s)
  accepted (ready (err e)) r s = (ready (err e), r, s)
  accepted (ready (ok (stream, addr))) r s =
      let (registered, r', s') = register_socket stream r s in
      elim registered [
        | err e ↦ (ready (err e), r', s')
        | ok socket ↦ (ready (ok (socket, addr)), r', s')
      ]

  unfoldable pub accept :
      Socket
      → List (List Op)
      → LoopPc
      → Reactor
      → State
      → Waker
      → Exec (Poll (Result (Socket × ℕ) IoError) × LoopPc × Reactor × State)
  accept l between pc r s waker = do
    (answer, pc', r', s') ← poll_loop (net.accept l.socket) l.token between pc r s waker
    let (answer', r'', s'') = accepted answer r' s'
    done (answer', pc', r'', s'')
