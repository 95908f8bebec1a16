-- ===== src/Server/Table.antt =====
-- poll_server.cpp, polling_worker: the arrays `fds` and `clients`, and the loop that takes the closed
-- connections out of them.
pub mod Rows
pub mod Counted
use nohost_server.Base.{
  ℕ, zero, suc, ◌+◌, ◌-◌, ◌≤◌, ◌<◌, ◌≡◌, refl, ap, sym, ◌∙◌, Bool, true, false, List, [], ◌∷◌,
  Option, none, some, arith, ltb, store, ℕ_discrete, if◌then◌else◌, lt→ltb, ltb-false,
}
use mathlib.Core.Path.{ap₂}

-- `fds[i].fd`, where `none` is -1, and `clients[i]`, a pointer. The other fields are the same in all
-- entries, or are written by poll.
pub record Table : Type 0 where
  pub fds : ℕ → Option ℕ
  pub clients : ℕ → ℕ
  pub nfds : ℕ

-- `for (; j < nfds; j++) a[j] = a[j+1];`, the first argument is `nfds - j`.
shift : {A : Type 0} → ℕ → (ℕ → A) → ℕ → ℕ → A
shift zero a j = a
shift (suc n) a j = shift n (store a j (a (j + 1))) (suc j)

removed : Table → ℕ → Table
unfolding shift
removed t i = record {
  fds = shift (t.nfds - i) t.fds i;
  clients = shift (t.nfds - i) t.clients i;
  nfds = t.nfds - 1;
}

visit : Table → ℕ → Table
unfolding removed
visit t i = elim (t.fds i) [ none ↦ removed t i | some fd ↦ t ]

-- `none`: the model's fuel is used up.
compress_loop : ℕ → ℕ → Table → Option Table
unfolding visit
compress_loop zero i t = none
compress_loop (suc f) i t =
    let rest = compress_loop f (suc i) (visit t i) in if ltb i t.nfds then rest else some t

unfoldable pub compress : Table → Option Table
unfolding compress_loop
compress t = compress_loop (t.nfds + 1) 0 t

-- A row of the table, and the `n` rows from the `i`-th.
abbrev pub Row : Type 0
Row = Option ℕ × ℕ

abbrev pub rows_from : Table → ℕ → ℕ → List Row
rows_from t i zero = []
rows_from t i (suc n) = (t.fds i, t.clients i) ∷ rows_from t (suc i) n

abbrev pub rows : Table → List Row
rows t = rows_from t 0 t.nfds

-- What the loop does to the rows: the row behind a closed one moves to its place, and is not looked
-- at.
abbrev pub squeeze : List Row → List Row
squeeze [] = []
squeeze ((none, c) ∷ []) = []
squeeze ((none, c) ∷ r ∷ rs) = r ∷ squeeze rs
squeeze ((some fd, c) ∷ rs) = (some fd, c) ∷ squeeze rs

-- The rows of open connections.
abbrev pub live : List Row → List Row
live [] = []
live ((none, c) ∷ rs) = live rs
live ((some fd, c) ∷ rs) = (some fd, c) ∷ live rs

-- No closed row stands behind another.
abbrev pub Apart : List Row → Type 0
Apart [] = Unit
Apart ((some fd, c) ∷ rs) = Apart rs
Apart ((none, c) ∷ []) = Unit
Apart ((none, c) ∷ (none, c') ∷ rs) = ⊥
Apart ((none, c) ∷ (some fd, c') ∷ rs) = Apart rs

live-squeeze : (rs : List Row) → live (squeeze rs) ≡ live rs
live-squeeze [] = refl
live-squeeze ((none, c) ∷ []) = refl
live-squeeze ((none, c) ∷ (none, c') ∷ rs) = live-squeeze rs
live-squeeze ((none, c) ∷ (some fd, c') ∷ rs) = ap (◌∷◌ (some fd, c')) (live-squeeze rs)
live-squeeze ((some fd, c) ∷ rs) = ap (◌∷◌ (some fd, c)) (live-squeeze rs)

squeeze-Apart : (rs : List Row) → Apart rs → squeeze rs ≡ live rs
squeeze-Apart [] h = refl
squeeze-Apart ((none, c) ∷ []) h = refl
squeeze-Apart ((none, c) ∷ (none, c') ∷ rs) h = absurd h
squeeze-Apart ((none, c) ∷ (some fd, c') ∷ rs) h = ap (◌∷◌ (some fd, c')) (squeeze-Apart rs h)
squeeze-Apart ((some fd, c) ∷ rs) h = ap (◌∷◌ (some fd, c)) (squeeze-Apart rs h)

shift-before : {A : Type 0} (n : ℕ) (a : ℕ → A) (j q : ℕ) → q < j → shift n a j q ≡ a q
unfolding shift
shift-before zero a j q lt = refl
shift-before (suc n) a j q lt =
    shift-before n (store a j (a (j + 1))) (suc j) q (omega arith) ∙ ground arith

shift-inside :
    {A : Type 0} (n : ℕ) (a : ℕ → A) (j q : ℕ) → j ≤ q → q < j + n → shift n a j q ≡ a (suc q)
unfolding shift
shift-inside zero a j q le lt = absurd (omega arith)
shift-inside (suc n) a j q le lt = elim (ℕ_discrete j q) [
  | yes same ↦
      shift-before n (store a j (a (j + 1))) (suc j) q (omega arith)
      ∙ ground (arith, ap a (suc_last j q same))
  | no other ↦
      shift-inside n (store a j (a (j + 1))) (suc j) q (omega arith) (omega arith) ∙ ground arith
]
  where
    suc_last : (j q : ℕ) → j ≡ q → j + 1 ≡ suc q
    suc_last j q e = omega arith

shift-after : {A : Type 0} (n : ℕ) (a : ℕ → A) (j q : ℕ) → j + n ≤ q → shift n a j q ≡ a q
unfolding shift
shift-after zero a j q le = refl
shift-after (suc n) a j q le =
    shift-after n (store a j (a (j + 1))) (suc j) q (omega arith) ∙ ground arith

rows_from-agree :
    (t t' : Table) (i j n : ℕ)
    → ((q : ℕ)
        → q < n
        → (t.fds (i + q) ≡ t'.fds (j + q)) × (t.clients (i + q) ≡ t'.clients (j + q)))
    → rows_from t i n ≡ rows_from t' j n
rows_from-agree t t' i j zero h = refl
rows_from-agree t t' i j (suc n) h =
    let ei : i + 0 ≡ i = omega arith in
    let ej : j + 0 ≡ j = omega arith in
    let (fd, client) = rw (ei, ej) at (h 0 (omega arith)) in
    ap₂ ◌∷◌ (ap₂ (λ x y. (x, y)) fd client) (
      rows_from-agree t t' (suc i) (suc j) n (λ q lt.
        let si : i + suc q ≡ suc i + q = omega arith in
        let sj : j + suc q ≡ suc j + q = omega arith in rw (si, sj) at (h (suc q) (omega arith))))
