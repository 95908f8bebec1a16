-- ===== src/Server/MultiPoll/Live.antt =====
-- multi_server.cpp, polling_worker, with the code of its connections: client_new, on_read, and the
-- close of a descriptor with client_close, on the clients at their addresses. What recv(2) and
-- write(2) answer to the calls of on_read is a list, one for each call; the addresses that malloc
-- gives and what its memory holds are arguments.
use nohost_server.Base.{
  ℕ, ◌+◌, ◌≡◌, refl, ap, sym, ◌∙◌, ◌⊎◌, Bool, List, [], ◌∷◌, ◌++◌, Option, none, some, Memory,
  store, one_if, ◌==◌, tally, tally-append, arith,
}
use nohost_server.Base.Int.{ℤ}
use nohost_server.Client.{Client, Answer, client_new}
use nohost_server.Request.{Library, World}
use nohost_server.Server.{
  Recv, Read, answered, stopped, unfinished, below_zero, no_fuel, on_read_multi,
}
use nohost_server.Server.Table.Counted.{open_as}
use nohost_server.Server.Poll.{Connections, Events, Worker}
use nohost_server.Server.Poll.Balance.{Ledger}
use nohost_server.Server.MultiPoll.{Ending, returned, exited, multi_round}

-- What a call of on_read meets, the two uninitialised values included.
pub record Incoming : Type 0 where
  pub recv : Recv
  pub answers : List Answer
  pub garbage_len : ℤ
  pub garbage : Bool

-- The clients by address, the global state, what the calls of on_read to come meet, the bytes that the
-- system took from each call, how many clients were made, and the descriptors opened and closed.
pub record Live : Type 0 where
  pub clients : ℕ → Client
  pub world : World
  pub incoming : List Incoming
  pub sent : List (List ℕ)
  pub made : ℕ
  pub opened : List ℕ
  pub closed : List ℕ

module _ (l : Library) (addresses : ℕ → ℕ) (buf output : Memory) where
  -- accept has opened the descriptor.
  unfoldable pub live_new : ℕ → ℕ → Live → ℕ × Live
  live_new fd j w = (
    addresses w.made,
    record w {
      clients = store w.clients (addresses w.made) (record (client_new buf output) { fd = fd });
      made = w.made + 1;
      opened = w.opened ++ fd ∷ [];
    },
  )

  unfoldable pub after_call : ℕ → Live → Read → Option (Bool × Live)
  after_call client w (answered result s out) = some (
    result,
    record w {
      clients = store w.clients client s.client;
      world = s.world;
      sent = w.sent ++ out ∷ [];
    },
  )
  after_call client w (stopped out) = none
  after_call client w (unfinished out) = none
  after_call client w below_zero = none
  after_call client w no_fuel = none

  unfoldable pub live_call : ℕ → Live → List Incoming → Option (Bool × Live)
  unfolding after_call
  live_call client w [] = none
  live_call client w (x ∷ rest) =
      after_call client (record w { incoming = rest })
        (on_read_multi l x.garbage_len x.garbage x.answers x.recv
          (record { client = w.clients client; world = w.world }))

  unfoldable pub live_read : ℕ → Live → Option (Bool × Live)
  unfolding live_call
  live_read client w = live_call client w w.incoming

  -- client_close only prints and frees.
  unfoldable pub live_close : ℕ → ℕ → Live → Live
  live_close fd client w = record w { closed = w.closed ++ fd ∷ [] }

  abbrev pub live : Connections Live
  live = record { client_new = live_new; on_read = live_read; close = live_close }

  after_call-keeps :
      {A : Type 0} (of : Live → A) (client : ℕ) (w : Live) (r : Read) (b : Bool) (w' : Live)
      → ((c : ℕ → Client) (g : World) (s : List (List ℕ))
          → of (record w { clients = c; world = g; sent = s }) ≡ of w)
      → after_call client w r ≡ some (b, w')
      → of w' ≡ of w
  unfolding after_call
  after_call-keeps of client w (answered result s out) b w' kept e =
      sym (ap (λ o. elim o [ none ↦ of w | some p ↦ of (p.1) ]) e) ∙ kept _ _ _
  after_call-keeps of client w (stopped out) b w' kept e = cc
  after_call-keeps of client w (unfinished out) b w' kept e = cc
  after_call-keeps of client w below_zero b w' kept e = cc
  after_call-keeps of client w no_fuel b w' kept e = cc

  live_call-keeps :
      {A : Type 0} (of : Live → A) (client : ℕ) (w : Live) (xs : List Incoming) (b : Bool)
      (w' : Live)
      → ((c : ℕ → Client) (g : World) (s : List (List ℕ)) (rest : List Incoming)
          → of (record w { clients = c; world = g; sent = s; incoming = rest }) ≡ of w)
      → live_call client w xs ≡ some (b, w')
      → of w' ≡ of w
  unfolding live_call
  live_call-keeps of client w [] b w' kept e = cc
  live_call-keeps of client w (x ∷ rest) b w' kept e =
      after_call-keeps of client (record w { incoming = rest }) _ b w'
        (λ c g s. kept c g s rest ∙ sym (kept w.clients w.world w.sent rest)) e
      ∙ kept w.clients w.world w.sent rest

abbrev pub times : ℕ → List ℕ → ℕ
times d = tally λ fd. one_if (d == fd)

times-last : (d fd : ℕ) (fds : List ℕ) → times d (fds ++ fd ∷ []) ≡ times d fds + one_if (d == fd)
times-last d fd fds =
    let both = tally-append (λ k. one_if (d == k)) fds (fd ∷ []) in omega (arith, both)

pub live-Ledger :
    (l : Library) (addresses : ℕ → ℕ) (buf output : Memory) → Ledger (live l addresses buf output)
unfolding live_new live_read live_close
live-Ledger l addresses buf output = record {
  opened = λ d w. times d w.opened;
  closed = λ d w. times d w.closed;
  new_opened = λ d fd j w. times-last d fd w.opened;
  new_closed = λ d fd j w. refl;
  read_opened = λ d client w b w' e.
      live_call-keeps l addresses buf output (λ v. times d v.opened) client w w.incoming b w'
        (λ _ _ _ _. refl) e;
  read_closed = λ d client w b w' e.
      live_call-keeps l addresses buf output (λ v. times d v.closed) client w w.incoming b w'
        (λ _ _ _ _. refl) e;
  close_opened = λ d fd client w. refl;
  close_closed = λ d fd client w. times-last d fd w.closed;
}

-- How the worker ends: it returns, and each descriptor was closed as often as it was opened; or the
-- process exits, or an on_read does not return, in the round that `e` brings for the worker `w`.
abbrev pub Ends : Connections Live → ℕ → Ending Live → Type 0
Ends c listen_sd r =
    ((v : Live) × (r ≡ returned v) × ((d : ℕ) → times d v.closed ≡ times d v.opened))
    ⊎ ((w : Worker Live) × (e : Events) × (r ≡ exited)
        × (multi_round c listen_sd e w ≡ none)
        × ((d : ℕ) → times d w.world.opened ≡ times d w.world.closed + open_as d w.table))
