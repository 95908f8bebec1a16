-- ===== src/Server/Table/Rows.antt =====
-- poll_server.cpp, polling_worker: the rows of the table behind the loop that takes the closed
-- connections out.
use nohost_server.Base.{
  ℕ, zero, suc, ◌+◌, ◌-◌, ◌≤◌, ◌<◌, ◌≡◌, refl, ap, sym, ◌∙◌, List, [], ◌∷◌, Option, Option-cases,
  none, some, inl, inr, arith, lt→ltb, ltb-false,
}
use mathlib.Core.Path.{ap₂}
use nohost_server.Server.Table.{
  Table, removed, visit, compress_loop, compress, Row, rows_from, rows, squeeze, live, Apart,
  live-squeeze, squeeze-Apart, shift-before, shift-inside, rows_from-agree,
}

-- The loop from `i` on, with `n` rows to go.
record Squeezed (i n : ℕ) (t : Table) (o : Option Table) : Type 0 where
  after : Table
  ended : o ≡ some after
  before : (q : ℕ) → q < i → (after.fds q ≡ t.fds q) × (after.clients q ≡ t.clients q)
  bound : i ≤ after.nfds
  kept : rows_from after i (after.nfds - i) ≡ squeeze (rows_from t i n)

loop_end : (f i : ℕ) (t : Table) → t.nfds ≤ i → compress_loop (suc f) i t ≡ some t
unfolding compress_loop
loop_end f i t le = rw (ltb-false i t.nfds le) refl

loop_next :
    (f i : ℕ) (t : Table)
    → i < t.nfds
    → compress_loop (suc f) i t ≡ compress_loop f (suc i) (visit t i)
unfolding compress_loop
loop_next f i t lt = rw (lt→ltb i t.nfds lt) refl

visit_open : (t : Table) (i fd : ℕ) → t.fds i ≡ some fd → visit t i ≡ t
unfolding visit
visit_open t i fd e = rw (e, visit) refl

visit_closed : (t : Table) (i : ℕ) → t.fds i ≡ none → visit t i ≡ removed t i
unfolding visit
visit_closed t i e = rw (e, visit) refl

first_row :
    (t : Table) (i k n : ℕ)
    → k ≡ suc n
    → rows_from t i k ≡ (t.fds i, t.clients i) ∷ rows_from t (suc i) n
first_row t i k n e = rw e refl

-- The rows from `i` of a table whose first is that of `t` at `j`.
row_by_row :
    (t after : Table) (i j : ℕ) (rest : List Row)
    → suc i ≤ after.nfds
    → after.fds i ≡ t.fds j
    → after.clients i ≡ t.clients j
    → rows_from after (suc i) (after.nfds - suc i) ≡ rest
    → rows_from after i (after.nfds - i) ≡ (t.fds j, t.clients j) ∷ rest
row_by_row t after i j rest le fd client e =
    first_row after i (after.nfds - i) (after.nfds - suc i) (omega arith)
    ∙ ap₂ ◌∷◌ (ap₂ (λ x y. (x, y)) fd client) e

squeeze_open :
    (fd : Option ℕ) (c n : ℕ) (rs : List Row)
    → fd ≡ some n
    → squeeze ((fd, c) ∷ rs) ≡ (fd, c) ∷ squeeze rs
squeeze_open fd c n rs e = rw e refl

squeeze_closed :
    (fd : Option ℕ) (c : ℕ) (r : Row) (rs : List Row)
    → fd ≡ none
    → squeeze ((fd, c) ∷ r ∷ rs) ≡ r ∷ squeeze rs
squeeze_closed fd c r rs e = rw e refl

squeeze_last : (fd : Option ℕ) (c : ℕ) → fd ≡ none → squeeze ((fd, c) ∷ []) ≡ []
squeeze_last fd c e = rw e refl

-- Behind a removal the rows from the next on are those from one further on.
removed-rows :
    (t : Table) (i n : ℕ)
    → i + suc (suc n) ≡ t.nfds
    → rows_from (removed t i) (suc i) n ≡ rows_from t (suc (suc i)) n
unfolding removed
removed-rows t i n e = rows_from-agree (removed t i) t (suc i) (suc (suc i)) n (λ q lt.
    let next : suc (suc i) + q ≡ suc (suc i + q) = omega arith in
    rw next (
      shift-inside (t.nfds - i) t.fds i (suc i + q) (omega arith) (omega arith),
      shift-inside (t.nfds - i) t.clients i (suc i + q) (omega arith) (omega arith),
    ))

removed-next :
    (t : Table) (i n : ℕ)
    → i + suc n ≡ t.nfds
    → ((removed t i).fds i ≡ t.fds (suc i)) × ((removed t i).clients i ≡ t.clients (suc i))
unfolding removed
removed-next t i n e = (
  shift-inside (t.nfds - i) t.fds i i (omega arith) (omega arith),
  shift-inside (t.nfds - i) t.clients i i (omega arith) (omega arith),
)

removed-before :
    (t : Table) (i q : ℕ)
    → q < i
    → ((removed t i).fds q ≡ t.fds q) × ((removed t i).clients q ≡ t.clients q)
unfolding removed
removed-before t i q lt =
    (shift-before (t.nfds - i) t.fds i q lt, shift-before (t.nfds - i) t.clients i q lt)

removed-nfds : (t : Table) (i : ℕ) → (removed t i).nfds ≡ t.nfds - 1
unfolding removed
removed-nfds t i = refl

-- The last row is a closed one.
last-closed :
    (f i : ℕ) (t : Table)
    → i + 1 ≡ t.nfds
    → t.fds i ≡ none
    → Squeezed i 1 t (compress_loop (suc (suc f)) i t)
last-closed f i t e closed = record {
  after = removed t i;
  ended =
      loop_next (suc f) i t (omega arith)
      ∙ ap (compress_loop (suc f) (suc i)) (visit_closed t i closed)
      ∙ loop_end f (suc i) (removed t i) (omega (arith, removed-nfds t i));
  before = removed-before t i;
  bound = omega (arith, removed-nfds t i);
  kept =
      let none_left : (removed t i).nfds - i ≡ 0 = omega (arith, removed-nfds t i) in
      ap (rows_from (removed t i) i) none_left ∙ sym (squeeze_last (t.fds i) (t.clients i) closed);
}

-- A closed row with another behind it.
closed-Squeezed :
    (n f i : ℕ) (t : Table)
    → i + suc (suc n) ≡ t.nfds
    → t.fds i ≡ none
    → Squeezed (suc i) n (removed t i) (compress_loop f (suc i) (removed t i))
    → Squeezed i (suc (suc n)) t (compress_loop (suc f) i t)
closed-Squeezed n f i t e closed more =
    let (fd, client) = removed-next t i (suc n) e in
    record {
      after = more.after;
      ended =
          loop_next f i t (omega arith)
          ∙ ap (compress_loop f (suc i)) (visit_closed t i closed)
          ∙ more.ended;
      before = λ q le. (
        (more.before q (omega arith)).0 ∙ (removed-before t i q le).0,
        (more.before q (omega arith)).1 ∙ (removed-before t i q le).1,
      );
      bound = omega (arith, more.bound);
      kept =
          row_by_row t more.after i (suc i) _ more.bound ((more.before i (omega arith)).0 ∙ fd)
            ((more.before i (omega arith)).1 ∙ client)
            (more.kept ∙ ap squeeze (removed-rows t i n e))
          ∙ sym (
              squeeze_closed (t.fds i) (t.clients i) (t.fds (suc i), t.clients (suc i))
                (rows_from t (suc (suc i)) n) closed);
    }

open-Squeezed :
    (n f i fd : ℕ) (t : Table)
    → i + suc n ≡ t.nfds
    → t.fds i ≡ some fd
    → Squeezed (suc i) n t (compress_loop f (suc i) t)
    → Squeezed i (suc n) t (compress_loop (suc f) i t)
open-Squeezed n f i fd t e is_open more = record {
  after = more.after;
  ended =
      loop_next f i t (omega arith)
      ∙ ap (compress_loop f (suc i)) (visit_open t i fd is_open)
      ∙ more.ended;
  before = λ q le. more.before q (omega arith);
  bound = omega (arith, more.bound);
  kept =
      row_by_row t more.after i i _ more.bound (more.before i (omega arith)).0
        (more.before i (omega arith)).1 more.kept
      ∙ sym (squeeze_open (t.fds i) (t.clients i) fd (rows_from t (suc i) n) is_open);
}

compress_loop-Squeezed :
    (n f i : ℕ) (t : Table) → i + n ≡ t.nfds → n < f → Squeezed i n t (compress_loop f i t)
compress_loop-Squeezed n zero i t e lt = absurd (omega arith)
compress_loop-Squeezed zero (suc f) i t e lt = record {
  after = t;
  ended = loop_end f i t (omega arith);
  before = λ q le. (refl, refl);
  bound = omega arith;
  kept = let none_left : t.nfds - i ≡ 0 = omega arith in rw none_left refl;
}
compress_loop-Squeezed (suc zero) (suc zero) i t e lt = absurd (omega arith)
compress_loop-Squeezed (suc zero) (suc (suc f)) i t e lt = elim (Option-cases (t.fds i)) [
  | inl closed ↦ last-closed f i t (omega arith) closed
  | inr (fd, is_open) ↦
      open-Squeezed 0 (suc f) i fd t e is_open
        (compress_loop-Squeezed 0 (suc f) (suc i) t (omega arith) (omega arith))
]
compress_loop-Squeezed (suc (suc n)) (suc f) i t e lt = elim (Option-cases (t.fds i)) [
  | inl closed ↦ closed-Squeezed n f i t e closed (
      compress_loop-Squeezed n f (suc i) (removed t i) (omega (arith, removed-nfds t i))
        (omega arith))
  | inr (fd, is_open) ↦
      open-Squeezed (suc n) f i fd t e is_open
        (compress_loop-Squeezed (suc n) f (suc i) t (omega arith) (omega arith))
]

-- The loop that takes the closed connections out of the table ends; the rows behind it are those of
-- the reference `squeeze`, and all open connections are in them, in their order.
pub compress-squeezes :
    (t : Table)
    → (t' : Table) × (compress t ≡ some t')
      × (rows t' ≡ squeeze (rows t))
      × (live (rows t') ≡ live (rows t))
unfolding compress
compress-squeezes t =
    let all = compress_loop-Squeezed t.nfds (t.nfds + 1) 0 t (omega arith) (omega arith) in
    let whole : all.after.nfds - 0 ≡ all.after.nfds = omega arith in
    let kept = rw whole at all.kept in
    (all.after, all.ended, kept, ap live kept ∙ live-squeeze (rows t))

-- If no two closed connections stand side by side in the table, the rows behind that loop are exactly
-- the open connections.
pub compress-Apart :
    (t : Table) → Apart (rows t) → (t' : Table) × (compress t ≡ some t') × (rows t' ≡ live (rows t))
compress-Apart t apart =
    let (t', run, kept, all) = compress-squeezes t in (t', run, kept ∙ squeeze-Apart (rows t) apart)
