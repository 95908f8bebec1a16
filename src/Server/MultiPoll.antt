-- ===== src/Server/MultiPoll.antt =====
-- multi_server.cpp, polling_worker: its rounds over the table of polled descriptors, and its end. The
-- loops over accept and over the closed connections are those of poll_server.cpp, with one listening
-- socket, and client_new has no queue as its argument: the number given here is 0.
pub mod Rounds
pub mod Closing
pub mod Live
mod Tests
use nohost_server.Base.{
  ℕ, zero, suc, ◌+◌, Bool, true, false, store, List, [], ◌∷◌, Option, none, some, if◌then◌else◌,
}
use nohost_server.Server.Table.{Table}
use nohost_server.Server.Poll.{Connections, Worker, Events, is_fd, accept_loop, read_entry, tidy}

-- What poll(2) answers.
pub data Polled : Type 0 where
  poll_failed : Polled
  timed_out : Polled
  polled : Events → Polled

-- How the worker ends: it returns, the process exits or on_read waits, or it waits for poll.
pub data Ending (W : Type 0) : Type 0 where
  returned : W → Ending W
  exited : Ending W
  waits : Worker W → Ending W

module _ {W : Type 0} (c : Connections W) (listen_sd : ℕ) where
  pub multi_entry : Events → ℕ → Worker W → Option (Worker W)
  multi_entry e i w =
      if e.ready i
      then if is_fd (w.table.fds i) listen_sd
        then accept_loop c (e.accepts i) 0 w
        else read_entry c i w
      else some w

  -- `for (; i < current_size; i++)`, the first argument is the number of entries that are left.
  pub multi_entries : ℕ → Events → ℕ → Worker W → Option (Worker W)
  unfolding multi_entry
  multi_entries zero e i w = some w
  multi_entries (suc n) e i w = elim (multi_entry e i w) [
    | none ↦ none
    | some w' ↦ multi_entries n e (suc i) w'
  ]

  -- A round behind a poll that did not fail or run out.
  pub multi_round : Events → Worker W → Option (Worker W)
  unfolding multi_entries
  multi_round e w = elim (multi_entries w.table.nfds e 0 w) [ none ↦ none | some w' ↦ tidy c w' ]

  close_entry : Table → ℕ → W → W
  close_entry t i w = elim (t.fds i) [ none ↦ w | some fd ↦ c.close fd (t.clients i) w ]

  -- The loop at the end, from `i`, with the number of entries that are left.
  pub close_all : ℕ → Table → ℕ → W → W
  unfolding close_entry
  close_all zero t i w = w
  close_all (suc n) t i w = close_all n t (suc i) (close_entry t i w)

  pub at_end : Worker W → Ending W
  unfolding close_all
  at_end w = returned (close_all w.table.nfds w.table 0 w.world)

  -- `while (end_server == FALSE)`
  next_round : (Worker W → Ending W) → Option (Worker W) → Ending W
  unfolding at_end
  next_round again none = exited
  next_round again (some w) = elim w.ending [ true ↦ at_end w | false ↦ again w ]

  pub polling_loop : List Polled → Worker W → Ending W
  unfolding multi_round next_round at_end
  polling_loop [] w = waits w
  polling_loop (poll_failed ∷ rest) w = at_end w
  polling_loop (timed_out ∷ rest) w = at_end w
  polling_loop (polled e ∷ rest) w = next_round (λ w'. polling_loop rest w') (multi_round e w)

  -- The worker with its variables as they are declared; the first entry is the listening socket, and
  -- its client is NULL.
  pub multi_worker : List Polled → W → Ending W
  unfolding polling_loop
  multi_worker answers world = polling_loop answers (record {
    table = record { fds = store (λ _. some 0) 0 (some listen_sd); clients = λ _. 0; nfds = 1 };
    world = world;
    is_listening = false;
    ending = false;
    compressing = false;
  })
