-- ===== src/Base/Bytes.antt =====
-- Memory as a map from addresses, which a C array is used as: reads, writes, and runs of bytes.
use Prim.Native.Nat.{ℕ, zero, suc, ◌+◌, ◌<◌, ◌≤◌}
use mathlib.Core.Path.{◌≡◌, refl, ap, ap₂, ◌∙◌}
use mathlib.Core.List.{List, [], ◌∷◌, ◌++◌}
use native.Mathlib.Omega.{arith}
use nohost_server.Base.Tests.{◌==◌, if◌then◌else◌}
use nohost_server.Base.Lists.{length}

abbrev pub Memory : Type 0
Memory = ℕ → ℕ

-- One cell written.
abbrev pub store {ℓ} : {A : Type ℓ} → (ℕ → A) → ℕ → A → ℕ → A
store m p v q = if p == q then v else m q

-- `memcpy(m + p, bytes, n)`.
unfoldable pub blit : Memory → ℕ → List ℕ → Memory
blit m p [] = m
blit m p (b ∷ bs) = store (blit m (suc p) bs) p b

-- The `n` bytes at `m + p`.
unfoldable pub view : Memory → ℕ → ℕ → List ℕ
view m p zero = []
view m p (suc n) = m p ∷ view m (suc p) n

-- The bytes `bs` stand at `m + p`.
abbrev pub Holds : Memory → ℕ → List ℕ → Type 0
Holds m p [] = Unit
Holds m p (b ∷ bs) = (m p ≡ b) × Holds m (suc p) bs

pub blit_below : (m : Memory) (p : ℕ) (bs : List ℕ) (q : ℕ) → q < p → blit m p bs q ≡ m q
unfolding blit
blit_below m p [] q h = refl
blit_below m p (b ∷ bs) q h = ground (arith, blit_below m (suc p) bs q (omega arith))

pub blit_above :
    (m : Memory) (p : ℕ) (bs : List ℕ) (q : ℕ) → p + length bs ≤ q → blit m p bs q ≡ m q
unfolding blit
blit_above m p [] q h = refl
blit_above m p (b ∷ bs) q h = ground (arith, blit_above m (suc p) bs q (omega arith))

pub view-agree :
    (m m' : Memory) (p n : ℕ)
    → ((q : ℕ) → p ≤ q → q < p + n → m q ≡ m' q)
    → view m p n ≡ view m' p n
unfolding view
view-agree m m' p zero h = refl
view-agree m m' p (suc n) h =
    ap₂ ◌∷◌ (h p (omega arith) (omega arith))
      (view-agree m m' (suc p) n (λ q a b. h q (omega arith) (omega arith)))

-- What was copied is read back.
pub view-blit : (m : Memory) (p : ℕ) (bs : List ℕ) → view (blit m p bs) p (length bs) ≡ bs
unfolding view blit
view-blit m p [] = refl
view-blit m p (b ∷ bs) = ap₂ ◌∷◌ (ground arith) (
    view-agree (blit m p (b ∷ bs)) (blit m (suc p) bs) (suc p) (length bs) (λ q a c. ground arith)
    ∙ view-blit m (suc p) bs)

pub view-add : (m : Memory) (p a b q : ℕ) → p + a ≡ q → view m p (a + b) ≡ view m p a ++ view m q b
unfolding view
view-add m p zero b q e =
    let e' : p ≡ q = omega arith in let e'' : zero + b ≡ b = omega arith in rw (e', e'')
view-add m p (suc a) b q e =
    let e' : suc a + b ≡ suc (a + b) = omega arith in
    rw e' (ap (◌∷◌ (m p)) (view-add m (suc p) a b q (omega arith)))

pub length-view : (m : Memory) (p n : ℕ) → length (view m p n) ≡ n
unfolding view
length-view m p zero = refl
length-view m p (suc n) = ap suc (length-view m (suc p) n)

-- Writing `bs` at the end of a run extends the run by it.
pub view-blit_end :
    (m : Memory) (p n q : ℕ) (bs : List ℕ)
    → p + n ≡ q
    → view (blit m q bs) p (n + length bs) ≡ view m p n ++ bs
view-blit_end m p n q bs e =
    view-add (blit m q bs) p n (length bs) q e
    ∙ ap₂ ◌++◌ (view-agree (blit m q bs) m p n (λ r a c. blit_below m q bs r (omega arith)))
        (view-blit m q bs)

pub Holds-append :
    (m : Memory) (p : ℕ) (xs ys : List ℕ)
    → Holds m p (xs ++ ys)
    → Holds m p xs × Holds m (p + length xs) ys
Holds-append m p [] ys h = (tt, rw (omegaz p) h)
  where
    omegaz : (p : ℕ) → p + 0 ≡ p
    omegaz p = omega arith
Holds-append m p (x ∷ xs) ys h =
    let rest = Holds-append m (suc p) xs ys h.1 in
    let e : suc p + length xs ≡ p + suc (length xs) = omega arith in
    ((h.0, rest.0), rw e at (rest.1))

pub view-Holds : (m : Memory) (p : ℕ) (xs : List ℕ) → Holds m p xs → view m p (length xs) ≡ xs
unfolding view
view-Holds m p [] h = refl
view-Holds m p (x ∷ xs) h = ap₂ ◌∷◌ (h.0) (view-Holds m (suc p) xs h.1)

pub Holds-view : (m : Memory) (p n : ℕ) → Holds m p (view m p n)
unfolding view
Holds-view m p zero = tt
Holds-view m p (suc n) = (refl, Holds-view m (suc p) n)

pub Holds-blit : (m : Memory) (p : ℕ) (bs : List ℕ) → Holds (blit m p bs) p bs
Holds-blit m p bs = rw (view-blit m p bs) at (Holds-view (blit m p bs) p (length bs))
