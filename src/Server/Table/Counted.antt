-- ===== src/Server/Table/Counted.antt =====
-- poll_server.cpp and multi_server.cpp: how often a descriptor stands in the table of polling_worker.
use nohost_server.Base.{
  ℕ, zero, suc, ◌+◌, ◌≤◌, ◌<◌, ◌≡◌, refl, ap, sym, ◌∙◌, List, [], ◌∷◌, Option, none, some, arith,
  one_if, tally, store, ◌==◌, ==-refl, ==-ne, ℕ_discrete, ◌≢◌,
}
use nohost_server.Server.Table.{Table, Row, rows_from, rows, live, compress}
use nohost_server.Server.Table.Rows.{compress-squeezes}

-- Whether an entry is the descriptor `d`.
abbrev pub is_entry : ℕ → Option ℕ → ℕ
is_entry d none = 0
is_entry d (some fd) = one_if (d == fd)

-- The entries of `n` that are `d`, from the `i`-th.
abbrev pub entries_of : ℕ → (ℕ → Option ℕ) → ℕ → ℕ → ℕ
entries_of d fds i zero = 0
entries_of d fds i (suc n) = is_entry d (fds i) + entries_of d fds (suc i) n

abbrev pub open_as : ℕ → Table → ℕ
open_as d t = entries_of d t.fds 0 t.nfds

entries_of-rows :
    (d : ℕ) (t : Table) (i n : ℕ)
    → entries_of d t.fds i n ≡ tally (λ r. is_entry d r.0) (rows_from t i n)
entries_of-rows d t i zero = refl
entries_of-rows d t i (suc n) = ap (λ k. is_entry d (t.fds i) + k) (entries_of-rows d t (suc i) n)

tally-live :
    (d : ℕ) (rs : List Row) → tally (λ r. is_entry d r.0) (live rs) ≡ tally (λ r. is_entry d r.0) rs
tally-live d [] = refl
tally-live d ((none, c) ∷ rs) = omega (arith, tally-live d rs)
tally-live d ((some fd, c) ∷ rs) = omega (arith, tally-live d rs)

-- The loop that takes closed connections out of the arrays changes no count.
pub compress-open_as :
    (t : Table) → (t' : Table) × (compress t ≡ some t') × ((d : ℕ) → open_as d t' ≡ open_as d t)
compress-open_as t =
    let (t', run, squeezed, kept) = compress-squeezes t in
    (
      t',
      run,
      λ d.
          entries_of-rows d t' 0 t'.nfds
          ∙ sym (tally-live d (rows t'))
          ∙ ap (tally (λ r. is_entry d r.0)) kept
          ∙ tally-live d (rows t)
          ∙ sym (entries_of-rows d t 0 t.nfds),
    )

entries_of-agree :
    (d : ℕ) (f g : ℕ → Option ℕ) (i n : ℕ)
    → ((k : ℕ) → i ≤ k → k < i + n → f k ≡ g k)
    → entries_of d f i n ≡ entries_of d g i n
entries_of-agree d f g i zero same = refl
entries_of-agree d f g i (suc n) same =
    let here = ap (is_entry d) (same i (omega arith) (omega arith)) in
    let others = entries_of-agree d f g (suc i) n (λ k le lt. same k (omega arith) (omega arith)) in
    omega (arith, here, others)

store_other : {A : Type 0} (f : ℕ → A) (k : ℕ) (v : A) (q : ℕ) → k ≢ q → store f k v q ≡ f q
store_other f k v q other = rw (==-ne k q other) refl

store_same : {A : Type 0} (f : ℕ → A) (k : ℕ) (v : A) → store f k v k ≡ v
store_same f k v = rw (==-refl k) refl

-- An entry of the table is written over.
pub entries_of-store :
    (d : ℕ) (f : ℕ → Option ℕ) (k : ℕ) (v : Option ℕ) (i n : ℕ)
    → i ≤ k
    → k < i + n
    → entries_of d (store f k v) i n + is_entry d (f k) ≡ entries_of d f i n + is_entry d v
entries_of-store d f k v i zero le lt = absurd (omega arith)
entries_of-store d f k v i (suc n) le lt = elim (ℕ_discrete i k) [
  | yes same ↦
      let here : is_entry d (store f k v i) ≡ is_entry d v =
        ap (λ j. is_entry d (store f k v j)) same ∙ ap (is_entry d) (store_same f k v) in
      let old : is_entry d (f i) ≡ is_entry d (f k) = ap (λ j. is_entry d (f j)) same in
      let others =
        entries_of-agree d (store f k v) f (suc i) n
          (λ q le' lt'. store_other f k v q (λ e. omega arith)) in
      omega (arith, here, old, others)
  | no other ↦
      let here = ap (is_entry d) (store_other f k v i (λ e. omega arith)) in
      let ih = entries_of-store d f k v (suc i) n (omega arith) (omega arith) in
      omega (arith, here, ih)
]

entries_of-last :
    (d : ℕ) (f : ℕ → Option ℕ) (i n : ℕ)
    → entries_of d f i (suc n) ≡ entries_of d f i n + is_entry d (f (i + n))
entries_of-last d f i zero = let start : i + 0 ≡ i = omega arith in rw start (omega arith)
entries_of-last d f i (suc n) =
    let same : suc i + n ≡ i + suc n = omega arith in
    let ih = rw same at (entries_of-last d f (suc i) n) in omega (arith, ih)

-- An entry is added behind the others.
pub entries_of-added :
    (d : ℕ) (f : ℕ → Option ℕ) (n : ℕ) (v : Option ℕ)
    → entries_of d (store f n v) 0 (n + 1) ≡ entries_of d f 0 n + is_entry d v
entries_of-added d f n v =
    let size : n + 1 ≡ suc n = omega arith in
    let end : 0 + n ≡ n = omega arith in
    let last = rw end at (entries_of-last d (store f n v) 0 n) in
    let here = ap (is_entry d) (store_same f n v) in
    let before =
      entries_of-agree d (store f n v) f 0 n (λ q le lt. store_other f n v q (λ e. omega arith)) in
    ap (entries_of d (store f n v) 0) size ∙ omega (arith, last, here, before)
