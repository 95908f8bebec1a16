-- ===== src/Exec/Tests.antt =====
-- Commands on a store that takes all.
use nohost_server.Base.{◌+◌, ◌*◌, ◌≡◌, refl, true, [], ◌∷◌, ◌++◌, none, some, arith, blit, codes}
use nohost_server.Client.{Arg, at, client_new, arg_bytes}
use nohost_server.Client.Output.{pending}
use nohost_server.Request.{Library}
use nohost_server.Session.{Session, ok_line, key_of}
use nohost_server.Session.Blocks.{asked}
use nohost_server.Exec.{exec_set}
use nohost_server.Exec.Replies.{given, exec_set-writes}

abbrev taking : Library
taking = record { alloc_tag = λ n kind. n * 10 + kind; takes = λ r. true }

-- A buffer with the name of a command, a key and a value.
abbrev idle : Session
idle = record {
  client = client_new (blit (λ _. 0) 0 (codes "setuser7ab")) (λ _. 0);
  world = record { events = []; reads = 0; others = 0; finished = [] };
}

abbrev name : Arg
name = record { pointer = at 0; size = 3 }

abbrev k : Arg
k = record { pointer = at 3; size = 5 }

abbrev v : Arg
v = record { pointer = at 8; size = 2 }

exec_set-writes_example :
    (s' : Session) × (exec_set taking (given idle (name ∷ (k ∷ (v ∷ [])))) ≡ some (none, s'))
    × (s'.world ≡ asked taking idle true (key_of idle.client k) (arg_bytes idle.client.buf v))
    × (pending s'.client ≡ pending idle.client ++ ok_line)
    × (s'.client.output_valid ≡ true)
exec_set-writes_example = exec_set-writes taking idle name k v (omega arith) refl
