-- ===== src/Server/MultiPoll/Closing.antt =====
-- multi_server.cpp, polling_worker, from its first poll to its end: the descriptors that it closes.
use nohost_server.Base.{
  ℕ, zero, suc, ◌+◌, ◌≤◌, ◌<◌, ◌≡◌, refl, sym, ◌∙◌, List, [], ◌∷◌, ◌++◌, Option, none, some, one_if,
  ◌==◌, Bool-cases, Option-cases, inl, inr, arith,
}
use nohost_server.Server.Table.{Table}
use nohost_server.Server.Table.Counted.{is_entry, entries_of}
use nohost_server.Server.Poll.{Connections, Worker, Events, is_fd, tidy}
use nohost_server.Server.Poll.Balance.{
  Ledger, Balanced, Part, gone, left, Part-then, Part-longer, accept_loop-Part, read_entry-Part,
  tidy-Balanced,
}
use nohost_server.Server.MultiPoll.{
  Polled, poll_failed, timed_out, polled, Ending, returned, exited, multi_entry, multi_entries,
  multi_round, close_entry, close_all, at_end, next_round, polling_loop, multi_worker,
}

-- The answers of poll that end the loop.
abbrev pub Stops : Polled → Type 0
Stops poll_failed = Unit
Stops timed_out = Unit
Stops (polled e) = ⊥

abbrev pub rounds : List Events → List Polled
rounds [] = []
rounds (e ∷ rest) = polled e ∷ rounds rest

module _ {W : Type 0} (c : Connections W) (ledger : Ledger c) (listen_sd : ℕ) where
  open ledger use {opened, closed}

  multi_entry-Part :
      (e : Events) (i : ℕ) (w : Worker W)
      → i < w.table.nfds
      → Balanced c ledger w
      → Part c ledger w (multi_entry c listen_sd e i w)
  unfolding multi_entry
  multi_entry-Part e i w lt balanced = elim (Bool-cases (e.ready i)) [
    | inr idle ↦ rw idle (left balanced (omega arith))
    | inl is_ready ↦ elim (Bool-cases (is_fd (w.table.fds i) listen_sd)) [
      | inl listens ↦ rw (is_ready, listens) (accept_loop-Part c ledger (e.accepts i) 0 w balanced)
      | inr other ↦ rw (is_ready, other) (read_entry-Part c ledger i w lt balanced)
    ]
  ]

  multi_entries-Part :
      (n : ℕ) (e : Events) (i : ℕ) (w : Worker W)
      → i + n ≤ w.table.nfds
      → Balanced c ledger w
      → Part c ledger w (multi_entries c listen_sd n e i w)
  unfolding multi_entries
  multi_entries-Part zero e i w le balanced = left balanced (omega arith)
  multi_entries-Part (suc n) e i w le balanced =
      Part-then c ledger w (multi_entry c listen_sd e i w) (multi_entries c listen_sd n e (suc i))
        (multi_entry-Part e i w (omega arith) balanced)
        (λ v balanced' longer.
          Part-longer c ledger w v (multi_entries c listen_sd n e (suc i) v) longer
            (multi_entries-Part n e (suc i) v (omega arith) balanced'))

  -- What a round leaves: nothing, or a worker whose balance is kept.
  abbrev Balances : Option (Worker W) → Type 0
  Balances none = Unit
  Balances (some w) = Balanced c ledger w

  tidied :
      (w : Worker W) (o : Option (Worker W))
      → Part c ledger w o
      → Balances (elim o [ none ↦ none | some v ↦ tidy c v ])
  tidied w none gone = tt
  tidied w (some v) (left balanced longer) =
      let (w', run, balanced') = tidy-Balanced c ledger v balanced in rw run balanced'

  multi_round-Balances :
      (e : Events) (w : Worker W) → Balanced c ledger w → Balances (multi_round c listen_sd e w)
  unfolding multi_round
  multi_round-Balances e w balanced =
      tidied w (multi_entries c listen_sd w.table.nfds e 0 w)
        (multi_entries-Part w.table.nfds e 0 w (omega arith) balanced)

  close_entry-closes :
      (t : Table) (i : ℕ) (w : W) (d : ℕ)
      → (closed d (close_entry c listen_sd t i w) ≡ closed d w + is_entry d (t.fds i))
        × (opened d (close_entry c listen_sd t i w) ≡ opened d w)
  unfolding close_entry
  close_entry-closes t i w d = elim (Option-cases (t.fds i)) [
    | inl empty ↦ rw (close_entry, empty) (omega arith, refl)
    | inr (fd, here) ↦
        rw (close_entry, here)
          (ledger.close_closed d fd (t.clients i) w, ledger.close_opened d fd (t.clients i) w)
  ]

  -- What the loop at the end closes.
  close_all-closes :
      (n : ℕ) (t : Table) (i : ℕ) (w : W) (d : ℕ)
      → (closed d (close_all c listen_sd n t i w) ≡ closed d w + entries_of d t.fds i n)
        × (opened d (close_all c listen_sd n t i w) ≡ opened d w)
  unfolding close_all
  close_all-closes zero t i w d = (omega arith, refl)
  close_all-closes (suc n) t i w d =
      let (one_closed, one_same) = close_entry-closes t i w d in
      let (more_closed, same) = close_all-closes n t (suc i) (close_entry c listen_sd t i w) d in
      (omega (arith, more_closed, one_closed), same ∙ one_same)

  -- The worker returns, and each descriptor was closed as often as it was opened; or the process
  -- exits, or an on_read waits, in a round that began with a balanced table.
  pub data ClosesAll : Ending W → Type 0 where
    closes_all : (w : W) → ((d : ℕ) → closed d w ≡ opened d w) → ClosesAll (returned w)
    ends_in :
        (w : Worker W) (e : Events)
        → Balanced c ledger w
        → multi_round c listen_sd e w ≡ none
        → ClosesAll exited

  at_end-ClosesAll : (w : Worker W) → Balanced c ledger w → ClosesAll (at_end c listen_sd w)
  unfolding at_end
  at_end-ClosesAll w balanced = closes_all _ (λ d.
      let (all_closed, same) = close_all-closes w.table.nfds w.table 0 w.world d in
      omega (arith, all_closed, same, balanced d))

  next_round-ClosesAll :
      (again : Worker W → Ending W) (w : Worker W) (e : Events) (o : Option (Worker W))
      → multi_round c listen_sd e w ≡ o
      → Balanced c ledger w
      → Balances o
      → ((v : Worker W) → Balanced c ledger v → ClosesAll (again v))
      → ClosesAll (next_round c listen_sd again o)
  unfolding next_round
  next_round-ClosesAll again w e none run balanced after more = ends_in w e balanced run
  next_round-ClosesAll again w e (some v) run balanced after more = elim (Bool-cases v.ending) [
    | inl ends ↦ rw ends (at_end-ClosesAll v after)
    | inr goes_on ↦ rw goes_on (more v after)
  ]

  polling_loop-ClosesAll :
      (es : List Events) (stop : Polled) (rest : List Polled) (w : Worker W)
      → Stops stop
      → Balanced c ledger w
      → ClosesAll (polling_loop c listen_sd (rounds es ++ stop ∷ rest) w)
  unfolding polling_loop
  polling_loop-ClosesAll [] poll_failed rest w stops balanced = at_end-ClosesAll w balanced
  polling_loop-ClosesAll [] timed_out rest w stops balanced = at_end-ClosesAll w balanced
  polling_loop-ClosesAll [] (polled e) rest w stops balanced = absurd stops
  polling_loop-ClosesAll (e ∷ es) stop rest w stops balanced =
      next_round-ClosesAll (polling_loop c listen_sd (rounds es ++ stop ∷ rest)) w e
        (multi_round c listen_sd e w) refl balanced (multi_round-Balances e w balanced)
        (λ v balanced'. polling_loop-ClosesAll es stop rest v stops balanced')

  pub multi_worker-ClosesAll :
      (es : List Events) (stop : Polled) (rest : List Polled) (world : W)
      → Stops stop
      → ((d : ℕ) → opened d world ≡ closed d world + one_if (d == listen_sd))
      → ClosesAll (multi_worker c listen_sd (rounds es ++ stop ∷ rest) world)
  unfolding multi_worker
  multi_worker-ClosesAll es stop rest world stops balance =
      polling_loop-ClosesAll es stop rest _ stops (λ d. balance d ∙ sym (omega arith))
