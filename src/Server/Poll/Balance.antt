-- ===== src/Server/Poll/Balance.antt =====
-- poll_server.cpp and multi_server.cpp, polling_worker: which descriptors are open and which were
-- closed, in the parts that the two have in common.
use nohost_server.Base.{
  Bool, ℕ, ◌+◌, ◌≤◌, ◌<◌, ◌≡◌, refl, ap, sym, ◌∙◌, true, false, List, [], ◌∷◌, Option, none, some,
  one_if, ◌==◌, Bool-cases, Option-cases, inl, inr, arith,
}
use nohost_server.Server.Poll.{
  Accept, accepted, no_more, accept_failed, options_failed, Connections, Worker, added_row,
  accept_loop, after_read, read_entry, tidy,
}
use nohost_server.Server.Table.Counted.{
  is_entry, open_as, compress-open_as, entries_of-store, entries_of-added,
}

-- What is known of the functions on connections: how often each descriptor was opened and closed so
-- far, where client_new comes with a new descriptor, close ends one, and on_read does neither.
pub record Ledger {W : Type 0} (c : Connections W) : Type 0 where
  pub opened : ℕ → W → ℕ
  pub closed : ℕ → W → ℕ
  pub new_opened :
      (d fd j : ℕ) (w : W) → opened d (c.client_new fd j w).1 ≡ opened d w + one_if (d == fd)
  pub new_closed : (d fd j : ℕ) (w : W) → closed d (c.client_new fd j w).1 ≡ closed d w
  pub read_opened :
      (d client : ℕ) (w : W) (b : Bool) (w' : W)
      → c.on_read client w ≡ some (b, w')
      → opened d w' ≡ opened d w
  pub read_closed :
      (d client : ℕ) (w : W) (b : Bool) (w' : W)
      → c.on_read client w ≡ some (b, w')
      → closed d w' ≡ closed d w
  pub close_opened : (d fd client : ℕ) (w : W) → opened d (c.close fd client w) ≡ opened d w
  pub close_closed :
      (d fd client : ℕ) (w : W) → closed d (c.close fd client w) ≡ closed d w + one_if (d == fd)

module _ {W : Type 0} (c : Connections W) (ledger : Ledger c) where
  open ledger use {opened, closed}

  -- Each descriptor was closed as often as it was opened, but for those in the table.
  abbrev pub Balanced : Worker W → Type 0
  Balanced w = (d : ℕ) → opened d w.world ≡ closed d w.world + open_as d w.table

  -- A part of a round: the process exits or an on_read waits, or the table is no shorter, and the
  -- balance is kept.
  pub data Part (w : Worker W) : Option (Worker W) → Type 0 where
    gone : Part w none
    left : {v : Worker W} → Balanced v → w.table.nfds ≤ v.table.nfds → Part w (some v)

  pub Part-then :
      (w : Worker W) (o : Option (Worker W)) (f : Worker W → Option (Worker W))
      → Part w o
      → ((v : Worker W) → Balanced v → w.table.nfds ≤ v.table.nfds → Part w (f v))
      → Part w (elim o [ none ↦ none | some v ↦ f v ])
  Part-then w none f gone more = gone
  Part-then w (some v) f (left balanced longer) more = more v balanced longer

  pub Part-longer :
      (w v : Worker W) (o : Option (Worker W)) → w.table.nfds ≤ v.table.nfds → Part v o → Part w o
  Part-longer w v none longer gone = gone
  Part-longer w v (some u) longer (left balanced more) = left balanced (omega arith)

  added_row-Balanced : (fd j : ℕ) (w : Worker W) → Balanced w → Balanced (added_row c fd j w)
  unfolding added_row
  added_row-Balanced fd j w balanced d =
      let row = entries_of-added d w.table.fds w.table.nfds (some fd) in
      let new_opened = ledger.new_opened d fd j w.world in
      let new_closed = ledger.new_closed d fd j w.world in
      omega (arith, row, new_opened, new_closed, balanced d)

  added_row-nfds : (fd j : ℕ) (w : Worker W) → (added_row c fd j w).table.nfds ≡ w.table.nfds + 1
  unfolding added_row
  added_row-nfds fd j w = refl

  pub accept_loop-Part :
      (answers : List Accept) (j : ℕ) (w : Worker W)
      → Balanced w
      → Part w (accept_loop c answers j w)
  unfolding accept_loop
  accept_loop-Part [] j w balanced = left balanced (omega arith)
  accept_loop-Part (accepted fd ∷ rest) j w balanced =
      let longer = added_row-nfds fd j w in
      Part-longer w (added_row c fd j w) (accept_loop c rest j (added_row c fd j w))
        (omega (arith, longer))
        (accept_loop-Part rest j (added_row c fd j w) (added_row-Balanced fd j w balanced))
  accept_loop-Part (no_more ∷ rest) j w balanced = left balanced (omega arith)
  accept_loop-Part (accept_failed ∷ rest) j w balanced = left balanced (omega arith)
  accept_loop-Part (options_failed fd ∷ rest) j w balanced = gone

  -- The world behind a read has the same descriptors open and closed.
  abbrev Unmoved : W → W → Type 0
  Unmoved w w' = (d : ℕ) → (opened d w' ≡ opened d w) × (closed d w' ≡ closed d w)

  -- A connection that was read; if it is closed, its entry is emptied.
  after_read-Part :
      (i : ℕ) (w : Worker W) (o : Option (Bool × W))
      → i < w.table.nfds
      → Balanced w
      → ((b : Bool) (world : W) → o ≡ some (b, world) → Unmoved w.world world)
      → Part w (after_read c i w o)
  unfolding after_read
  after_read-Part i w none lt balanced unmoved = gone
  after_read-Part i w (some (false, world)) lt balanced unmoved =
      left
        (λ d.
          let (same_opened, same_closed) = unmoved false world refl d in
          omega (arith, same_opened, same_closed, balanced d))
        (omega arith)
  after_read-Part i w (some (true, world)) lt balanced unmoved =
      let client = w.table.clients i in
      left
        (λ d.
          let (same_opened, same_closed) = unmoved true world refl d in
          let table =
            entries_of-store d w.table.fds i none 0 w.table.nfds (omega arith) (omega arith) in
          elim (Option-cases (w.table.fds i)) [
            | inl closed_before ↦
                let empty = ap (is_entry d) closed_before in
                rw closed_before (omega (arith, table, empty, same_opened, same_closed, balanced d))
            | inr (fd, here) ↦
                let entry = ap (is_entry d) here in
                let close_opened = ledger.close_opened d fd client world in
                let close_closed = ledger.close_closed d fd client world in
                rw here (
                  omega (
                    arith,
                    table,
                    entry,
                    close_opened,
                    close_closed,
                    same_opened,
                    same_closed,
                    balanced d,
                  ))
          ])
        (omega arith)

  pub read_entry-Part :
      (i : ℕ) (w : Worker W) → i < w.table.nfds → Balanced w → Part w (read_entry c i w)
  unfolding read_entry
  read_entry-Part i w lt balanced =
      let client = w.table.clients i in
      after_read-Part i w (c.on_read client w.world) lt balanced (λ b world e d. (
        ledger.read_opened d client w.world b world e,
        ledger.read_closed d client w.world b world e,
      ))

  -- The loop that takes the closed connections out of the table.
  pub tidy-Balanced :
      (w : Worker W) → Balanced w → (w' : Worker W) × (tidy c w ≡ some w') × Balanced w'
  unfolding tidy
  tidy-Balanced w balanced =
      let (t, run, same) = compress-open_as w.table in
      elim (Bool-cases w.compressing) [
        | inl some_closed ↦ (
          record w { table = t; compressing = false },
          rw (some_closed, run) refl,
          λ d. balanced d ∙ ap (λ n. closed d w.world + n) (sym (same d)),
        )
        | inr none_closed ↦ (w, rw none_closed refl, balanced)
      ]
