-- ===== src/Tests/Futures.antt =====
-- The theorems about src/time, src/fs and src/net at small values.
use hooch.Base.{
  ℕ, ◌+◌, ◌≡◌, refl, arith, false, some, none, List, [], ◌∷◌, ◌++◌, Result, ok, err, Returns,
}
use hooch.Ring.Fifo.{new-Holds}
use hooch.Mio.{IoError, would_block, counting, counting-NeverFails}
use hooch.Reactor.Readiness.{Op, event}
use hooch.Reactor.{Waker, pending, ready, waker_token, on_event}
use hooch.File
use hooch.File.{FileOperation, create, Disk, AsyncHoochFile, BlockFn, Opening, block_fn}
use hooch.Reactor.Drain.{WokenLast}
use hooch.File.Wakeups.{IsFresh, submitted, opening_completes, completion_unnoticed}
use hooch.Net.{Sockets, attempting, poll_loop}
use hooch.Net.Retries.{Outcome, calls_end_or_wake}
use hooch.Net.Offload
use hooch.Net.Offload.{AsyncSocket, ConnectFn, Connecting, bind_fn, run_fn, offload_completes}
use hooch.Tests.Channels.{small_reactor, room_for_tags}
use hooch.Tests.Events.{two_workers, two_workers-IsValid}
use hooch.Tests.Timers.{elsewhere}

-- Every operation gives the handle 40, and the state counts the operations.
abbrev counted_disk : Disk
counted_disk = record { State = ℕ; perform = λ operation path n. (ok 40, n + 1) }

abbrev creating : Opening ℕ ℕ
creating = record {
  file = record {
    path = 7;
    file_operation = some create;
    reactor_tag = 5;
    file_handle = none;
    has_polled = false;
  };
  reactor = small_reactor;
  pool = two_workers [];
  disk = 0;
  mio = 0;
}

creating-IsFresh : IsFresh creating create []
creating-IsFresh = record {
  unpolled = refl;
  to_do = refl;
  tags = new-Holds 4 (omega arith);
  room = omega (arith, room_for_tags);
  valid = two_workers-IsValid [];
  pool_room = omega arith;
}

abbrev create_seven : BlockFn
create_seven = record { operation = create; target = 7 }

opening_completes_example :
    Returns
      (λ (answer, o).
        (answer ≡ pending)
        × ((o.pool.channels 1).queue ≡ [] ++ create_seven ∷ [])
        × Returns
            (λ o'.
              Returns (WokenLast 9) (on_event o'.reactor waker_token)
              × Returns (λ (answer', _). answer' ≡ ready (ok 40)) (File.poll o' 8))
            (block_fn counted_disk counting create_seven o))
      (File.poll creating 9)
opening_completes_example =
    opening_completes counted_disk counting counting-NeverFails creating create [] 9 8
      creating-IsFresh

completion_unnoticed_example :
    let o1 = submitted creating create 9 in
    Returns
      (λ (woken, r).
        ((before : List Waker) × (woken ≡ before ++ 9 ∷ []))
        × Returns (λ (answer, _). answer ≡ pending) (File.poll (record o1 { reactor = r }) 8)
        × Returns
            (λ o.
              Returns (λ (woken', r'). woken' ≡ []) (on_event o.reactor waker_token)
              × Returns (λ (answer, _). answer ≡ ready (ok 40)) (File.poll o 8))
            (block_fn counted_disk counting create_seven (record o1 { reactor = r })))
      (on_event o1.reactor waker_token)
completion_unnoticed_example =
    completion_unnoticed counted_disk counting counting-NeverFails creating create [] 9 8
      creating-IsFresh refl

-- A socket that would block, whatever its state.
abbrev blocked_read : ℕ → Result ℕ IoError × ℕ
blocked_read n = (err would_block, n + 1)

-- The event loop takes an event of the token before the second of six turns.
abbrev busy_turns : List (List Op)
busy_turns = [] ∷ (event 3 ∷ []) ∷ [] ∷ [] ∷ [] ∷ [] ∷ []

calls_end_or_wake_example :
    Returns
      (Outcome blocked_read 3 0 9 elsewhere)
      (poll_loop blocked_read 3 busy_turns attempting small_reactor 0 9)
calls_end_or_wake_example =
    calls_end_or_wake blocked_read 3 busy_turns attempting small_reactor 0 9 elsewhere
      (λ e. omega (arith, e)) (omega arith) ((λ e. omega (arith, e)), ((λ e. omega (arith, e)), tt))

abbrev binding : Connecting ℕ
binding = record {
  future = record { addr = some 80; state = none; has_polled = false };
  pool = two_workers [];
  net = 0;
}

-- Every call gives the socket 40, or has the length 2, and the state counts the calls.
abbrev forty : Sockets
forty = record {
  State = ℕ;
  send_to = λ socket buf dest n. (ok 2, n + 1);
  recv_from = λ socket n. (ok (2, 80), n + 1);
  read = λ socket n. (ok 2, n + 1);
  write = λ socket buf n. (ok 2, n + 1);
  accept = λ socket n. (ok (40, 80), n + 1);
  connect = λ addr n. (ok 40, n + 1);
  bind_udp = λ addr n. (ok 40, n + 1);
  bind_tcp = λ addr n. (ok 40, n + 1);
  set_nonblocking = λ socket n. (ok tt, n);
  register = λ socket token n. (ok tt, n);
  deregister = λ socket n. n;
}

offload_completes_example :
    let f : ConnectFn = record { socket_addr = 80; waker = 9 } in
    Returns
      (λ (answer, c).
        (answer ≡ pending)
        × ((c.pool.channels 1).queue ≡ [] ++ f ∷ [])
        × Returns (λ (early, _). early ≡ pending) (Offload.poll c 8)
        × ((run_fn forty (bind_fn forty) f c).0 ≡ 9)
        × Returns
            (λ (late, _). late ≡ ready (bind_fn forty 80 0).0)
            (Offload.poll (run_fn forty (bind_fn forty) f c).1 8))
      (Offload.poll binding 9)
offload_completes_example =
    offload_completes forty (bind_fn forty) binding 80 9 8 8 refl refl refl (two_workers-IsValid [])
      (omega arith)
