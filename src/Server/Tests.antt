-- ===== src/Server/Tests.antt =====
-- A connection to which one client sends two pieces, its requests that are done, and small tables.
use nohost_server.Base.{
  length-replicate, zero, suc, ◌+◌, ◌*◌, ◌≡◌, refl, true, List, [], ◌∷◌, ◌++◌, none, some, codes,
  arith, ℕ, ◌==◌, ◌||◌, false,
}
use nohost_server.Base.Int.{pos, print_nat}
use nohost_server.Client.{Answer, wrote, client_new, failed}
use nohost_server.Request.{Library, Request}
use nohost_server.Session.{Session}
use nohost_server.Dispatch.Pipeline.{set_key, get_key, wire}
use nohost_server.Dispatch.Parts.{Key, IsValidKey}
use nohost_server.Server.{received, on_read, on_read_multi}
use nohost_server.Server.Multi.{on_read_multi-on_read}
use nohost_server.Server.Talk.{Piece, calls, inputs, all_cmds, Talked, calls-serve}
use nohost_server.Server.Handler.{handle_each}
use nohost_server.Server.Handler.Variants.{c_block, handle_buse, handle_busefs, variants-reply}
use nohost_server.Server.Handler.Replies.{
  AllTaken, AllTakenWith, answers_with, length-answer_with, all_left, answers_to, Replied,
  length-block_answer,
}
use nohost_server.Server.Table.{Table, compress, rows, live, squeeze}
use nohost_server.Server.Poll.{
  Connections, Worker, Events, accepted, no_more, accept_loop, poll_round,
}
use nohost_server.Server.Poll.Rounds.{read_all}
use nohost_server.Server.Poll.Starved.{accepting, poll_round-starves}
use nohost_server.Server.Table.Rows.{compress-squeezes}

abbrev taking : Library
taking = record { alloc_tag = λ n kind. n * 10 + kind; takes = λ r. true }

abbrev fresh : Session
fresh = record {
  client = client_new (λ _. 0) (λ _. 0);
  world = record { events = []; reads = 0; others = 0; finished = [] };
}

abbrev user_7 : Key
user_7 = record { prefix = codes "user"; number = 7 }

-- A SET and a GET, then a GET.
abbrev two_pieces : List Piece
two_pieces =
    record {
      cmd = set_key user_7 (codes "ab");
      cmds = get_key user_7 ∷ [];
      answers = wrote 2 ∷ (wrote 3 ∷ []);
    }
    ∷ (record { cmd = get_key user_7; cmds = []; answers = [] } ∷ [])

valid_7 : IsValidKey user_7
valid_7 = record { of_four = refl; is_int = omega arith }

calls-serve_example :
    Talked taking fresh [] (all_cmds two_pieces) (calls taking (pos 0) (inputs two_pieces) fresh [])
unfolding client_new print_nat
calls-serve_example =
    calls-serve two_pieces taking (pos 0) fresh [] (λ r. refl)
      (record {
        read_all = refl;
        at_start = refl;
        sent_all = refl;
        from_start = refl;
        unmarked = refl;
      })
      (
        record {
          valid = ((valid_7, omega arith), (valid_7, tt));
          fits = omega arith;
          short = omega arith;
          taken = (omega arith, omega arith, (omega arith, omega arith, refl));
        },
        (
          record { valid = (valid_7, tt); fits = omega arith; short = omega arith; taken = refl },
          tt,
        ),
      )

on_read_multi-on_read_example :
    on_read_multi taking
      (pos 0)
      false
      (failed ∷ [])
      (received (wire (set_key user_7 (codes "ab") ∷ (get_key user_7 ∷ []))))
      fresh
    ≡ on_read taking
        (pos 0)
        false
        (failed ∷ [])
        (received (wire (set_key user_7 (codes "ab") ∷ (get_key user_7 ∷ []))))
        fresh
unfolding client_new print_nat
on_read_multi-on_read_example =
    on_read_multi-on_read taking (pos 0) false (failed ∷ []) fresh (set_key user_7 (codes "ab"))
      (get_key user_7 ∷ []) (λ r. refl)
      (record {
        read_all = refl;
        at_start = refl;
        sent_all = refl;
        from_start = refl;
        unmarked = refl;
      })
      ((valid_7, omega arith), (valid_7, tt)) (omega arith)

abbrev read_done : Request
read_done = record { client = 5; tag = 1; kind = 2; key = 8; value = codes "ab" }

abbrev delete_done : Request
delete_done = record { client = 5; tag = 0; kind = 3; key = 8; value = [] }

abbrev both_done : List (Request × List Answer)
both_done = (read_done, wrote 8201 ∷ []) ∷ ((delete_done, wrote 5 ∷ []) ∷ [])

both_done-AllTakenWith : AllTakenWith c_block both_done
both_done-AllTakenWith =
    let size = length-answer_with c_block (length-replicate {A = ℕ} 8192 b'c') in
    (
      omega (arith, size),
      (omega arith, omega (arith, size), omega (arith, size)),
      (omega arith, (omega arith, omega arith, refl), tt),
    )

both_done-AllTaken : AllTaken both_done
both_done-AllTaken = (
  omega (arith, length-block_answer),
  (omega arith, omega (arith, length-block_answer), omega (arith, length-block_answer)),
  (omega arith, (omega arith, omega arith, refl), tt),
)

variants-reply_example :
    Replied fresh.client
      (all_left fresh.world both_done)
      ([] ++ answers_with c_block both_done)
      (handle_each handle_buse both_done fresh.client fresh.world [])
    × Replied fresh.client fresh.world
        ([] ++ answers_to both_done)
        (handle_each handle_busefs both_done fresh.client fresh.world [])
unfolding client_new
variants-reply_example =
    variants-reply both_done fresh.client fresh.world [] refl refl both_done-AllTakenWith
      both_done-AllTaken

-- Five connections, two closed ones among them.
abbrev five : Table
five = record {
  fds = λ i. elim i [
    | zero ↦ some 3
    | suc zero ↦ none
    | suc (suc zero) ↦ some 5
    | suc (suc (suc zero)) ↦ none
    | _ ↦ some 7
  ];
  clients = λ i. i + 100;
  nfds = 5;
}

compress-squeezes_example :
    (t' : Table) × (compress five ≡ some t')
    × (rows t' ≡ squeeze (rows five))
    × (live (rows t') ≡ live (rows five))
compress-squeezes_example = compress-squeezes five

-- Connections that record the clients that were read, of which the client 101 ends.
abbrev logged : Connections (List ℕ)
logged = record {
  client_new = λ fd j w. (fd + 100, w);
  on_read = λ client w. some (client == 101, w ++ client ∷ []);
  close = λ fd client w. w;
}

-- A listening socket and the five connections behind it.
abbrev polling : Worker (List ℕ)
polling = record {
  table = record {
    fds = λ i. elim i [ zero ↦ some 3 | suc k ↦ some (k + 10) ];
    clients = λ i. i + 100;
    nfds = 6;
  };
  world = [];
  is_listening = false;
  ending = false;
  compressing = false;
}

abbrev two_ready : Events
two_ready = record { ready = λ i. i == 1 || i == 4; accepts = λ i. [] }

abbrev all_ready : Events
all_ready = record { ready = λ i. true; accepts = λ i. accepted 20 ∷ (no_more ∷ []) }

poll_round-starves_example :
    poll_round logged (3 ∷ []) all_ready polling
    ≡ accept_loop logged (accepted 20 ∷ (no_more ∷ [])) 0 (accepting polling)
poll_round-starves_example =
    poll_round-starves logged 3 all_ready 5 polling refl refl refl (λ k le lt. ground arith) refl
