-- ===== src/Dispatch/Tests.antt =====
-- A buffer full of asterisks.
use nohost_server.Base.{◌≢◌, true, []}
use nohost_server.Base.Int.{pos}
use nohost_server.Client.{client_new}
use nohost_server.Request.{Library}
use nohost_server.Session.{Session}
use nohost_server.Dispatch.{out_of_fuel, client_exec_commands}
use nohost_server.Dispatch.Progress.{client_exec_commands-ends}

abbrev taking : Library
taking = record { alloc_tag = λ n kind. n; takes = λ r. true }

abbrev full : Session
full = record {
  client = record (client_new (λ _. 42) (λ _. 0)) { buf_len = 9 };
  world = record { events = []; reads = 0; others = 0; finished = [] };
}

client_exec_commands-ends_example : client_exec_commands taking (pos 3) full ≢ out_of_fuel
client_exec_commands-ends_example = client_exec_commands-ends taking (pos 3) full
