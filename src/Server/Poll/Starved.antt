-- ===== src/Server/Poll/Starved.antt =====
-- poll_server.cpp, polling_worker: a round in which the listening socket is ready.
use nohost_server.Base.{
  ℕ, suc, ◌+◌, ◌≤◌, ◌<◌, ◌≡◌, refl, ap, ◌∙◌, Bool, true, false, List, [], ◌∷◌, Option, none, some,
  ==-ne, ==-refl, if◌then◌else◌, arith,
}
use nohost_server.Server.Poll.{
  Accept, accepted, no_more, accept_failed, options_failed, Connections, Worker, Events, is_fd,
  added_row, accept_loop, listen_loop, read_entry, entry, entries, tidy, poll_round,
}
use nohost_server.Server.Poll.Rounds.{entries-skipped, pick_busy}

if_clear : {A : Type 0} (b : Bool) (x y : A) → b ≡ false → (if b then x else y) ≡ y
if_clear true x y h = cc
if_clear false x y h = refl

-- The worker in the accept loop of the first entry.
abbrev pub accepting : {W : Type 0} → Worker W → Worker W
accepting w = record w { is_listening = true }

module _ {W : Type 0} (c : Connections W) where
  -- What accept leaves of the worker: the rows that were there, and two of the variables.
  pub record Kept (w w' : Worker W) : Type 0 where
    pub listening : w'.is_listening ≡ w.is_listening
    pub compressing : w'.compressing ≡ w.compressing
    pub rows : (k : ℕ) → k < w.table.nfds → w'.table.fds k ≡ w.table.fds k

  added_row-Kept : (fd j : ℕ) (w : Worker W) → Kept w (added_row c fd j w)
  unfolding added_row
  added_row-Kept fd j w = record {
    listening = refl;
    compressing = refl;
    rows = λ k lt. rw (==-ne w.table.nfds k (λ e. omega arith)) refl;
  }

  added_row-nfds : (fd j : ℕ) (w : Worker W) → (added_row c fd j w).table.nfds ≡ w.table.nfds + 1
  unfolding added_row
  added_row-nfds fd j w = refl

  Kept-trans : (w v u : Worker W) → v.table.nfds ≡ w.table.nfds + 1 → Kept w v → Kept v u → Kept w u
  Kept-trans w v u grown a b = record {
    listening = b.listening ∙ a.listening;
    compressing = b.compressing ∙ a.compressing;
    rows = λ k lt. b.rows k (omega (arith, grown)) ∙ a.rows k lt;
  }

  -- The process exits, or the worker goes on like this.
  pub data After (w : Worker W) : Option (Worker W) → Type 0 where
    gone : After w none
    left : {w' : Worker W} → Kept w w' → After w (some w')

  After-trans :
      (w v : Worker W) (o : Option (Worker W))
      → v.table.nfds ≡ w.table.nfds + 1
      → Kept w v
      → After v o
      → After w o
  After-trans w v none grown a gone = gone
  After-trans w v (some u) grown a (left b) = left (Kept-trans w v u grown a b)

  pub accept_loop-After :
      (answers : List Accept) (j : ℕ) (w : Worker W) → After w (accept_loop c answers j w)
  unfolding accept_loop
  accept_loop-After [] j w =
      left (record { listening = refl; compressing = refl; rows = λ k lt. refl })
  accept_loop-After (accepted fd ∷ rest) j w =
      After-trans w (added_row c fd j w) _ (added_row-nfds fd j w) (added_row-Kept fd j w)
        (accept_loop-After rest j (added_row c fd j w))
  accept_loop-After (no_more ∷ rest) j w =
      left (record { listening = refl; compressing = refl; rows = λ k lt. refl })
  accept_loop-After (accept_failed ∷ rest) j w =
      left (record { listening = refl; compressing = refl; rows = λ k lt. refl })
  accept_loop-After (options_failed fd ∷ rest) j w = gone

  module _ (sd : ℕ) (e : Events) where
    -- The three things that the round does with the result of the accept loop.
    same_result : (o : Option (Worker W)) → elim o [ none ↦ none | some w ↦ some w ] ≡ o
    same_result none = refl
    same_result (some w) = refl

    not_read :
        (i : ℕ) (w : Worker W) (o : Option (Worker W))
        → w.is_listening ≡ true
        → After w o
        → elim o [ none ↦ none | some v ↦ if v.is_listening then some v else read_entry c i v ] ≡ o
    not_read i w none busy gone = refl
    not_read i w (some v) busy (left k) =
        pick_busy (some v) (read_entry c i v) v.is_listening (k.listening ∙ busy)

    others_skipped :
        (n : ℕ) (w : Worker W) (o : Option (Worker W))
        → w.is_listening ≡ true
        → w.table.nfds ≡ suc n
        → ((k : ℕ) → 1 ≤ k → k < suc n → is_fd (w.table.fds k) sd ≡ false)
        → After w o
        → elim o [ none ↦ none | some v ↦ entries c n (sd ∷ []) e 1 v ] ≡ o
    others_skipped n w none busy size others gone = refl
    others_skipped n w (some v) busy size others (left kept) =
        entries-skipped c (sd ∷ []) e n 1 v (kept.listening ∙ busy) (λ k le lt r.
          let other =
            ap (λ fd. is_fd fd sd) (kept.rows k (omega arith)) ∙ others k le (omega arith) in
          rw other refl)

    tidied :
        (w : Worker W) (o : Option (Worker W))
        → w.compressing ≡ false
        → After w o
        → elim o [ none ↦ none | some v ↦ tidy c v ] ≡ o
    unfolding tidy
    tidied w none clear gone = refl
    tidied w (some v) clear (left kept) =
        if_clear v.compressing _ (some v) (kept.compressing ∙ clear)

    first_entry :
        (w : Worker W)
        → e.ready 0 ≡ true
        → w.table.fds 0 ≡ some sd
        → entry c (sd ∷ []) e 0 w ≡ accept_loop c (e.accepts 0) 0 (accepting w)
    unfolding entry listen_loop
    first_entry w is_ready first =
        let own : is_fd (w.table.fds 0) sd ≡ true = rw first (==-refl sd) in
        rw (is_ready, own)
          (ap
              (λ o. elim o [
                | none ↦ none
                | some v ↦ if v.is_listening then some v else read_entry c 0 v
              ])
              (same_result (accept_loop c (e.accepts 0) 0 (accepting w)))
            ∙ not_read 0 (accepting w) _ refl (accept_loop-After (e.accepts 0) 0 (accepting w)))

    -- If the listening socket, the first entry of the table, is ready, a round of polling_worker is
    -- the loop over accept and nothing else: no connection is read in it, whichever are ready, and
    -- the table is not compressed.
    pub poll_round-starves :
        (n : ℕ) (w : Worker W)
        → e.ready 0 ≡ true
        → w.table.nfds ≡ suc n
        → w.table.fds 0 ≡ some sd
        → ((k : ℕ) → 1 ≤ k → k < suc n → is_fd (w.table.fds k) sd ≡ false)
        → w.compressing ≡ false
        → poll_round c (sd ∷ []) e w ≡ accept_loop c (e.accepts 0) 0 (accepting w)
    unfolding poll_round entries
    poll_round-starves n w is_ready size first others clear =
        let result = accept_loop c (e.accepts 0) 0 (accepting w) in
        let after = accept_loop-After (e.accepts 0) 0 (accepting w) in
        let w0 : Worker W = record w { is_listening = false } in
        let start = first_entry w0 is_ready first in
        let all : entries c (suc n) (sd ∷ []) e 0 w0 ≡ result =
          ap (λ o. elim o [ none ↦ none | some v ↦ entries c n (sd ∷ []) e 1 v ]) start
          ∙ others_skipped n (accepting w) result refl size others after in
        ap (λ k. elim (entries c k (sd ∷ []) e 0 w0) [ none ↦ none | some v ↦ tidy c v ]) size
        ∙ ap (λ o. elim o [ none ↦ none | some v ↦ tidy c v ]) all
        ∙ tidied (accepting w) result clear after
