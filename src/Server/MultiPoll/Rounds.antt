-- ===== src/Server/MultiPoll/Rounds.antt =====
-- multi_server.cpp, polling_worker: which connections a round reads.
use nohost_server.Base.{ℕ, suc, ◌+◌, ◌≤◌, ◌<◌, ◌≡◌, false, List, Option, none, some, if◌then◌else◌}
use nohost_server.Server.Poll.{Connections, Worker, Events, is_fd, accept_loop}
use nohost_server.Server.Poll.Rounds.{read_all, then_tidy}
use nohost_server.Server.MultiPoll.{multi_entries}

module _ {W : Type 0} (c : Connections W) (listen_sd : ℕ) (e : Events) where
  -- None of the `n` entries from the `i`-th is the listening socket.
  abbrev pub Apart : Worker W → ℕ → ℕ → Type 0
  Apart w i n = (k : ℕ) → i ≤ k → k < i + n → is_fd (w.table.fds k) listen_sd ≡ false

  -- What the specification does behind the loop over accept.
  abbrev pub then_read : List ℕ → Option (Worker W) → Option (Worker W)
  then_read is o = elim o [ none ↦ none | some w ↦ then_tidy c (read_all c is w) ]

  module _ (n : ℕ) (w : Worker W) (size : w.table.nfds ≡ suc n)
      (first : w.table.fds 0 ≡ some listen_sd) (apart : Apart w 1 n) where
    others : Option (Worker W) → Option (Worker W)
    others o = elim o [ none ↦ none | some v ↦ multi_entries c listen_sd n e 1 v ]

    first_entry : Option (Worker W)
    first_entry = if e.ready 0 then accept_loop c (e.accepts 0) 0 w else some w
