-- ===== src/Server/Poll.antt =====
-- poll_server.cpp, polling_worker: a round over the table of polled descriptors. What the round does
-- with connections is given by functions on a state `W`: client_new with the new descriptor and
-- queue, which gives a pointer, on_read, which gives its result or none where it does not return (the
-- process exits in it, or its flush waits), and close with client_close. The
-- answers of poll and accept are arguments; fcntl and the options that are set have no result that is
-- used but their failure.
pub mod Rounds
pub mod Starved
pub mod Balance
use nohost_server.Base.{
  ℕ, zero, suc, ◌+◌, Bool, true, false, List, [], ◌∷◌, Option, none, some, store, ◌==◌,
  if◌then◌else◌,
}
use nohost_server.Server.Table.{Table, compress}

-- accept(2): a descriptor, EWOULDBLOCK, another error; or a descriptor whose options cannot be set.
pub data Accept : Type 0 where
  accepted : ℕ → Accept
  no_more : Accept
  accept_failed : Accept
  options_failed : ℕ → Accept

pub record Connections (W : Type 0) : Type 0 where
  pub client_new : ℕ → ℕ → W → ℕ × W
  pub on_read : ℕ → W → Option (Bool × W)
  pub close : ℕ → ℕ → W → W

-- The variables `isListen_sd`, `end_server` and `compress_array`, with the table and what the
-- connections are.
pub record Worker (W : Type 0) : Type 0 where
  pub table : Table
  pub world : W
  pub is_listening : Bool
  pub ending : Bool
  pub compressing : Bool

-- What poll and accept answer in a round: `revents` is not 0, and the answers for an entry.
pub record Events : Type 0 where
  pub ready : ℕ → Bool
  pub accepts : ℕ → List Accept

abbrev pub is_fd : Option ℕ → ℕ → Bool
is_fd none fd = false
is_fd (some a) fd = a == fd

module _ {W : Type 0} (c : Connections W) where
  -- The new row. The arrays' 2000 entries are not checked.
  unfoldable pub added_row : ℕ → ℕ → Worker W → Worker W
  added_row fd j w =
      let (client, world) = c.client_new fd j w.world in
      let t = w.table in
      record w {
        table = record {
          fds = store t.fds t.nfds (some fd);
          clients = store t.clients t.nfds client;
          nfds = t.nfds + 1;
        };
        world = world;
      }

  -- The loop over accept; `none` is the exit of the process. A list that ends counts as EWOULDBLOCK.
  unfoldable pub accept_loop : List Accept → ℕ → Worker W → Option (Worker W)
  unfolding added_row
  accept_loop [] j w = some w
  accept_loop (accepted fd ∷ rest) j w = accept_loop rest j (added_row fd j w)
  accept_loop (no_more ∷ rest) j w = some w
  accept_loop (accept_failed ∷ rest) j w = some (record w { ending = true })
  accept_loop (options_failed fd ∷ rest) j w = none

  -- The listening sockets from the `j`-th, against the entry `i`.
  pub listen_loop : List Accept → List ℕ → ℕ → ℕ → Worker W → Option (Worker W)
  unfolding accept_loop
  listen_loop answers [] j i w = some w
  listen_loop answers (listen_sd ∷ sds) j i w =
      if is_fd (w.table.fds i) listen_sd
      then elim (accept_loop answers j (record w { is_listening = true })) [
        | none ↦ none
        | some w' ↦ listen_loop answers sds (suc j) i w'
      ]
      else listen_loop answers sds (suc j) i w

  -- The end of a connection, if on_read tells it.
  unfoldable pub after_read : ℕ → Worker W → Option (Bool × W) → Option (Worker W)
  after_read i w none = none
  after_read i w (some (true, world)) =
      let t = w.table in
      some (record w {
        table = record t { fds = store t.fds i none };
        world = elim (t.fds i) [ none ↦ world | some fd ↦ c.close fd (t.clients i) world ];
        compressing = true;
      })
  after_read i w (some (false, world)) = some (record w { world = world })

  -- A connection that is ready.
  unfoldable pub read_entry : ℕ → Worker W → Option (Worker W)
  unfolding after_read
  read_entry i w = after_read i w (c.on_read (w.table.clients i) w.world)

  pub entry : List ℕ → Events → ℕ → Worker W → Option (Worker W)
  unfolding listen_loop read_entry
  entry sds e i w =
      if e.ready i
      then elim (listen_loop (e.accepts i) sds 0 i w) [
        | none ↦ none
        | some w' ↦ if w'.is_listening then some w' else read_entry i w'
      ]
      else some w

  -- `for (; i < current_size; i++)`, the first argument is the number of entries that are left.
  pub entries : ℕ → List ℕ → Events → ℕ → Worker W → Option (Worker W)
  unfolding entry
  entries zero sds e i w = some w
  entries (suc n) sds e i w = elim (entry sds e i w) [
    | none ↦ none
    | some w' ↦ entries n sds e (suc i) w'
  ]

  -- The table is compressed where a connection was closed.
  unfoldable pub tidy : Worker W → Option (Worker W)
  tidy w =
      if w.compressing
      then elim (compress w.table) [
        | none ↦ none
        | some t ↦ some (record w { table = t; compressing = false })
      ]
      else some w

  -- A round behind a poll that did not fail or run out.
  pub poll_round : List ℕ → Events → Worker W → Option (Worker W)
  unfolding entries tidy
  poll_round sds e w = elim (entries w.table.nfds sds e 0 (record w { is_listening = false })) [
    | none ↦ none
    | some w' ↦ tidy w'
  ]
