-- ===== src/Tests/Util.antt =====
-- The logger, and endpoints over a small operating system: its state is the next descriptor, every
-- name has two addresses, a socket can be bound to the second only, and it takes some attempts to
-- connect one.
use arq_benchmark.Base.{
  ℕ, suc, ◌<◌, ◌≤◌, ◌≡◌, ◌⊎◌, Bool, true, false, List, [], ◌∷◌, none, some, String, ◌==◌, returns,
  if◌then◌else◌, arith, refl, ltb,
}
use arq_benchmark.Util.Logging
use arq_benchmark.Util.Logging.{
  sets_level, enables_timestamps, initial, log_message, log_message-in_range, Call,
}
use arq_benchmark.Util.AddressInfo.{Memory, begin, visit, visit-begin}
use arq_benchmark.Launcher.Config.{LauncherConfig, go_back_n}
use arq_benchmark.Launcher.Session.{sends, receives, start_transmitter, start_receiver}
use arq_benchmark.Launcher.Session.Descriptors.{Closes, sessions-Closes}
use arq_benchmark.Util.Os.{
  Result, Os, Process, AddrInfo, af, inet, sock_dgram, ipproto_udp, udp, tcp,
}
use arq_benchmark.Util.Endpoint.{Endpoint, new, accept, connect_retry}
use arq_benchmark.Util.Endpoint.Descriptors.{Accounted, AcceptLeaves, new-Accounted, accept_leaks}
use arq_benchmark.Util.Endpoint.Retry.{Retries, connect_retry-Retries}

abbrev calls : List Call
calls = sets_level 9 ∷ enables_timestamps ∷ sets_level 4 ∷ []

log_message-in_range_example :
    let logger = Logging.run calls initial in
    ((4 ≤ logger.logging_level)
      × ((text : String) × (log_message 4 "12:00" "sent" logger ≡ returns (some text))))
    ⊎ ((logger.logging_level < 4) × (log_message 4 "12:00" "sent" logger ≡ returns none))
log_message-in_range_example = log_message-in_range calls 4 "12:00" "sent"

abbrev info : ℕ → AddrInfo
info n = record {
  ai_family = af 2;
  ai_socktype = sock_dgram;
  ai_protocol = ipproto_udp;
  ai_addr = n ∷ [];
}

abbrev second : List ℕ → Bool
second [] = false
second (n ∷ rest) = n == 2

abbrev os : Os ℕ
os = record {
  getaddrinfo = λ host service type protocol w. (some (info 1 ∷ info 2 ∷ []), w);
  socket = λ family type protocol w. (some w, suc w);
  set_reuse_addr = λ id w. (true, w);
  set_recv_timeout = λ id s us w. (true, w);
  bind = λ id addr w. (second addr, w);
  listen = λ id backlog w. (true, w);
  connect = λ id addr w. (ltb 6 w, suc w);
  accept = λ id w. ((some w, inet 7), suc w);
  close = λ fd w. w;
  send = λ id bytes w. (none, w);
  sendto = λ id bytes addr w. (none, w);
  recv = λ id room w. (none, w);
  recvfrom = λ id room w. (none, w);
  inet_ntop = λ addr. "10.0.0.7";
}

abbrev process : Process ℕ
process = record { world = 3; descriptors = []; slept = 0 }

new-Accounted_example : Accounted os process.descriptors (new os "localhost" "65534" udp process)
new-Accounted_example = new-Accounted os "localhost" "65534" udp process

abbrev listening : Endpoint
listening = record { socket = record { socket_id = some 3 } }

abbrev open_process : Process ℕ
open_process = record { world = 4; descriptors = 3 ∷ []; slept = 0 }

accept_leaks_example :
    AcceptLeaves os (3 ∷ []) listening (some 4) (accept os listening (some "10.0.0.7") open_process)
accept_leaks_example = accept_leaks os listening (some "10.0.0.7") open_process

connect_retry-Retries_example :
    Retries os listening.socket "localhost" "65535" tcp 20 500 open_process
      (connect_retry os listening "localhost" "65535" tcp 20 500 open_process)
connect_retry-Retries_example =
    connect_retry-Retries os listening "localhost" "65535" tcp 20 500 open_process

-- A list of two entries, at the addresses 40 and 8.
abbrev memory : Memory
memory p = record { info = info p; ai_next = if p == 40 then some 8 else none }

visit-begin_example : visit 3 memory (begin (some 40)) ≡ returns (info 40 ∷ info 8 ∷ [])
visit-begin_example =
    visit-begin memory (some 40) (info 40 ∷ info 8 ∷ []) 3 (40, refl, refl, (8, refl, refl, refl))
      (omega arith)

abbrev config : LauncherConfig
config = record {
  common = record {
    server_names = record { host_name = "localhost"; service_name = "65534" };
    client_names = record { host_name = "localhost"; service_name = "65535" };
    arq_protocol = go_back_n;
    window_size = none;
  };
  server = none;
  client = none;
}

sessions-Closes_example :
    (r : Result (Unit {0}) × Process ℕ) × (start_transmitter os config
        (sends (1 ∷ []) ∷ receives (0 ∷ []) ∷ [])
        open_process
      ≡ returns (1, r))
    × Closes os (3 ∷ []) r
    × Closes os
        (3 ∷ [])
        (start_receiver os config (sends (1 ∷ []) ∷ receives (0 ∷ []) ∷ []) open_process).1
sessions-Closes_example =
    sessions-Closes os config (sends (1 ∷ []) ∷ receives (0 ∷ []) ∷ []) open_process refl
