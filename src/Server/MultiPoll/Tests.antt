-- ===== src/Server/MultiPoll/Tests.antt =====
-- Connections that record which descriptors come and go.
use nohost_server.Base.{
  ℕ, ◌+◌, ◌*◌, true, ◌≡◌, refl, false, List, [], ◌∷◌, ◌++◌, some, ◌==◌, ◌||◌, store,
}
use nohost_server.Server.Poll.{
  Connections, Worker, Events, accepted, no_more, accept_failed, accept_loop, added_row, read_entry,
  after_read, tidy,
}
use nohost_server.Server.MultiPoll.{
  timed_out, Ending, returned, exited, waits, multi_round, multi_worker, polling_loop,
  multi_entries, multi_entry, next_round, at_end, close_all, close_entry,
}
use nohost_server.Server.MultiPoll.Closing.{rounds}
use nohost_server.Server.MultiPoll.Live.{
  Live, live, live_new, live_read, live_call, after_call, live_close,
}
use nohost_server.Client.{client_new}
use nohost_server.Request.{Library}
use nohost_server.Server.Table.{compress}
use nohost_server.Server.{received, on_read_multi, receive}
use nohost_server.Base.Int.{pos}

abbrev Log : Type 0
Log = List ℕ × List ℕ

-- The client 107 ends its connection.
abbrev logged : Connections Log
logged = record {
  client_new = λ fd j w. (fd + 100, (w.0 ++ fd ∷ [], w.1));
  on_read = λ client w. some (client == 107, w);
  close = λ fd client w. (w.0, w.1 ++ fd ∷ []);
}

-- Two connections come; then the one with the descriptor 7 has data, and accept fails.
abbrev come : Events
come = record { ready = λ i. i == 0; accepts = λ i. accepted 7 ∷ (accepted 8 ∷ (no_more ∷ [])) }

abbrev fail_late : Events
fail_late = record { ready = λ i. i == 0 || i == 1; accepts = λ i. accept_failed ∷ [] }

abbrev taking : Library
taking = record { alloc_tag = λ n kind. n * 10 + kind; takes = λ r. true }

-- The clients of the descriptors 7 and 8 come to the addresses 107 and 108, and the first ends.
abbrev connections : Connections Live
connections = live taking (λ n. n + 107) (λ _. 0) (λ _. 0)

abbrev at_first : Live
at_first = record {
  clients = λ _. client_new (λ _. 0) (λ _. 0);
  world = record { events = []; reads = 0; others = 0; finished = [] };
  incoming = record { recv = received []; answers = []; garbage_len = pos 0; garbage = false } ∷ [];
  sent = [];
  made = 0;
  opened = 3 ∷ [];
  closed = [];
}

-- This run returns: it closes the connection that ended, then the two others.
abbrev closed_in : Ending Live → List ℕ
closed_in (returned v) = v.closed
closed_in exited = []
closed_in (waits w) = []

closes_each :
    closed_in
      (multi_worker connections 3 (rounds (come ∷ (fail_late ∷ [])) ++ timed_out ∷ []) at_first)
    ≡ 7 ∷ (3 ∷ (8 ∷ []))
unfolding multi_worker polling_loop multi_round multi_entries multi_entry accept_loop added_row
    read_entry after_read tidy compress live_new live_read live_call after_call live_close
    on_read_multi receive next_round at_end close_all close_entry client_new
closes_each = refl

abbrev three_entries : Worker Log
three_entries = record {
  table = record {
    fds = store (store (store (λ _. some 0) 0 (some 3)) 1 (some 7)) 2 (some 8);
    clients = λ i. i + 106;
    nfds = 3;
  };
  world = (3 ∷ (7 ∷ (8 ∷ [])), []);
  is_listening = false;
  ending = false;
  compressing = false;
}
