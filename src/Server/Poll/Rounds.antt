-- ===== src/Server/Poll/Rounds.antt =====
-- poll_server.cpp, polling_worker: which connections a round reads.
use nohost_server.Base.{
  ℕ, zero, suc, ◌+◌, ◌≤◌, ◌<◌, ◌≡◌, ◌≢◌, refl, ap, ◌∙◌, Bool, true, false, ◌||◌, List, [], ◌∷◌,
  Option, none, some, ==-ne, if◌then◌else◌, Bool-cases, inl, inr, arith,
}
use nohost_server.Server.Poll.{
  Accept, Connections, Worker, Events, is_fd, listen_loop, after_read, read_entry, entry, entries,
  tidy,
}

-- Whether a descriptor is one of the listening sockets.
abbrev pub listens : List ℕ → Option ℕ → Bool
listens [] fd = false
listens (sd ∷ sds) fd = is_fd fd sd || listens sds fd

-- The indices of the entries that are ready, from `i`.
abbrev pub ready_from : Events → ℕ → ℕ → List ℕ
ready_from e zero i = []
ready_from e (suc n) i = if e.ready i then i ∷ ready_from e n (suc i) else ready_from e n (suc i)

-- No entry that is ready, of the `n` from `i`, is a listening socket.
abbrev pub NoListener : {W : Type 0} → List ℕ → Events → Worker W → ℕ → ℕ → Type 0
NoListener sds e w i n =
    (k : ℕ) → i ≤ k → k < i + n → e.ready k ≡ true → listens sds (w.table.fds k) ≡ false

or_false : (a b : Bool) → a || b ≡ false → (a ≡ false) × (b ≡ false)
or_false true b e = cc
or_false false true e = cc
or_false false false e = (refl, refl)

pub pick_busy : {A : Type 0} (x y : A) (b : Bool) → b ≡ true → (if b then x else y) ≡ x
pick_busy x y true h = refl
pick_busy x y false h = cc

-- The worker at the start of a round.
abbrev pub begun : {W : Type 0} → Worker W → Worker W
begun w = record w { is_listening = false }

-- One read for each of the entries, as long as each returns.
unfoldable pub read_all : {W : Type 0} → Connections W → List ℕ → Worker W → Option (Worker W)
read_all c [] w = some w
read_all c (i ∷ is) w = elim (read_entry c i w) [ none ↦ none | some v ↦ read_all c is v ]

-- The compaction behind the entries.
abbrev pub then_tidy : {W : Type 0} → Connections W → Option (Worker W) → Option (Worker W)
then_tidy c o = elim o [ none ↦ none | some w ↦ tidy c w ]

module _ {W : Type 0} (c : Connections W) (sds : List ℕ) (e : Events) where
  listen_loop-other :
      (answers : List Accept) (rest : List ℕ) (j i : ℕ) (w : Worker W)
      → listens rest (w.table.fds i) ≡ false
      → listen_loop c answers rest j i w ≡ some w
  unfolding listen_loop
  listen_loop-other answers [] j i w h = refl
  listen_loop-other answers (sd ∷ rest) j i w h =
      let (this, others) = or_false (is_fd (w.table.fds i) sd) (listens rest (w.table.fds i)) h in
      rw this (listen_loop-other answers rest (suc j) i w others)

  -- What a read leaves of the table and of `isListen_sd`.
  pub record Others (w : Worker W) (i : ℕ) (v : Worker W) : Type 0 where
    pub listening : v.is_listening ≡ w.is_listening
    pub nfds : v.table.nfds ≡ w.table.nfds
    pub fds : (k : ℕ) → i ≢ k → v.table.fds k ≡ w.table.fds k

  pub data Reads (w : Worker W) (i : ℕ) : Option (Worker W) → Type 0 where
    no_return : Reads w i none
    went_on : {v : Worker W} → Others w i v → Reads w i (some v)

  after_read-Reads : (i : ℕ) (w : Worker W) (o : Option (Bool × W)) → Reads w i (after_read c i w o)
  unfolding after_read
  after_read-Reads i w none = no_return
  after_read-Reads i w (some (true, world)) =
      went_on (record { listening = refl; nfds = refl; fds = λ k ne. rw (==-ne i k ne) refl })
  after_read-Reads i w (some (false, world)) =
      went_on (record { listening = refl; nfds = refl; fds = λ k ne. refl })

  pub read_entry-Reads : (i : ℕ) (w : Worker W) → Reads w i (read_entry c i w)
  unfolding read_entry
  read_entry-Reads i w = after_read-Reads i w (c.on_read (w.table.clients i) w.world)

  -- What follows a read does the same if it does so on the worker that the read leaves.
  pub behind_read :
      (w : Worker W) (i : ℕ) (f g : Worker W → Option (Worker W)) (o : Option (Worker W))
      → Reads w i o
      → ((v : Worker W) → Others w i v → f v ≡ g v)
      → elim o as (λ _. Option (Worker W)) [ none ↦ none | some v ↦ f v ]
        ≡ elim o as (λ _. Option (Worker W)) [ none ↦ none | some v ↦ g v ]
  behind_read w i f g none no_return same = refl
  behind_read w i f g (some v) (went_on others) same = same v others

  entry-idle : (i : ℕ) (w : Worker W) → e.ready i ≡ false → entry c sds e i w ≡ some w
  unfolding entry
  entry-idle i w h = rw h refl

  entry-skipped :
      (i : ℕ) (w : Worker W)
      → (e.ready i ≡ true → listens sds (w.table.fds i) ≡ false)
      → w.is_listening ≡ true
      → entry c sds e i w ≡ some w
  unfolding entry
  entry-skipped i w other busy = elim (Bool-cases (e.ready i)) [
    | inl is_ready ↦
        rw (is_ready, listen_loop-other (e.accepts i) sds 0 i w (other is_ready))
          (pick_busy (some w) (read_entry c i w) w.is_listening busy)
    | inr is_idle ↦ entry-idle i w is_idle
  ]

  pub entries-next :
      (n i : ℕ) (w w' : Worker W)
      → entry c sds e i w ≡ some w'
      → entries c (suc n) sds e i w ≡ entries c n sds e (suc i) w'
  unfolding entries
  entries-next n i w w' h =
      ap (λ o. elim o [ none ↦ none | some v ↦ entries c n sds e (suc i) v ]) h

  -- Behind a listening socket that was ready no entry changes anything.
  pub entries-skipped :
      (n i : ℕ) (w : Worker W)
      → w.is_listening ≡ true
      → NoListener sds e w i n
      → entries c n sds e i w ≡ some w
  unfolding entries
  entries-skipped zero i w busy none_listens = refl
  entries-skipped (suc n) i w busy none_listens =
      entries-next n i w w (entry-skipped i w (none_listens i (omega arith) (omega arith)) busy)
      ∙ entries-skipped n (suc i) w busy (λ k le lt. none_listens k (omega arith) (omega arith))
