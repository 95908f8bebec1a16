-- ===== src/Queue/Chains.antt =====
-- Linked chains of nodes: where the nodes of a list stand, and what links them.
use nohost_server.Base.{ℕ, ◌≡◌, ◌≢◌, refl, List, [], ◌∷◌, ◌++◌, some, arith, sym, ◌∙◌, length, ◌⊎◌}
use nohost_server.Queue.{Cells, Queue}

-- The nodes of a queue, front first: each its address and its value.
abbrev pub Items : Type 0
Items = List (ℕ × ℕ)

abbrev pub first : Items → ℕ
first [] = 0
first ((a, v) ∷ xs) = a

abbrev pub last : Items → ℕ
last [] = 0
last ((a, v) ∷ []) = a
last (x ∷ y ∷ xs) = last (y ∷ xs)

abbrev pub Absent : ℕ → Items → Type 0
Absent a [] = Unit
Absent a ((b, v) ∷ xs) = (a ≢ b) × Absent a xs

-- Each node stands at its address once, and links to the next; the last links to NULL.
abbrev pub Chain : Cells → Items → Type 0
Chain m [] = Unit
Chain m ((a, v) ∷ xs) =
    (m a ≡ some (record { value = v; next = first xs })) × Absent a xs × Chain m xs

pub record IsQueue (m : Cells) (q : Queue) (items : Items) : Type 0 where
  pub chain : Chain m items
  pub counted : q.count ≡ length items
  pub fronted : (q.count ≡ 0) ⊎ (q.front ≡ first items)
  pub reared : (q.count ≡ 0) ⊎ (q.rear ≡ last items)

pub Absent-last : (a b v : ℕ) (xs : Items) → Absent a ((b, v) ∷ xs) → a ≢ last ((b, v) ∷ xs)
Absent-last a b v [] h = h.0
Absent-last a b v ((c, w) ∷ xs) h = Absent-last a c w xs (h.1)

-- A chain is not disturbed by a change at an address that is not its own.
pub Chain-frame :
    (m m' : Cells) (d : ℕ) (xs : Items)
    → ((p : ℕ) → p ≢ d → m' p ≡ m p)
    → Absent d xs
    → Chain m xs
    → Chain m' xs
Chain-frame m m' d [] same out h = tt
Chain-frame m m' d ((a, v) ∷ xs) same out h =
    (same a (λ e. out.0 (sym e)) ∙ h.0, h.1, Chain-frame m m' d xs same (out.1) (h.2))

-- The last node of a chain, and what it holds.
pub Chain-last :
    (m : Cells) (a v : ℕ) (xs : Items)
    → Chain m ((a, v) ∷ xs)
    → (w : ℕ) × (m (last ((a, v) ∷ xs)) ≡ some (record { value = w; next = 0 }))
Chain-last m a v [] h = (v, h.0)
Chain-last m a v ((b, w) ∷ xs) h = Chain-last m b w xs (h.2)

pub Absent-append : (a b w : ℕ) (xs : Items) → Absent a xs → a ≢ b → Absent a (xs ++ (b, w) ∷ [])
Absent-append a b w [] h ne = (ne, tt)
Absent-append a b w ((c, v) ∷ xs) h ne = (h.0, Absent-append a b w xs (h.1) ne)

-- A node at a new address, linked behind the last one, extends the chain.
pub Chain-append :
    (m m' : Cells) (a v : ℕ) (xs : Items) (new w u : ℕ)
    → Chain m ((a, v) ∷ xs)
    → Absent new ((a, v) ∷ xs)
    → m (last ((a, v) ∷ xs)) ≡ some (record { value = u; next = 0 })
    → m' (last ((a, v) ∷ xs)) ≡ some (record { value = u; next = new })
    → m' new ≡ some (record { value = w; next = 0 })
    → ((p : ℕ) → p ≢ new → p ≢ last ((a, v) ∷ xs) → m' p ≡ m p)
    → Chain m' (((a, v) ∷ xs) ++ (new, w) ∷ [])
Chain-append m m' a v [] new w u h out old here made same =
    (ground (arith, h.0), (λ e. out.0 (sym e), tt), (made, tt, tt))
Chain-append m m' a v ((b, t) ∷ xs) new w u h out old here made same = (
  same a (λ e. out.0 (sym e)) (Absent-last a b t xs (h.1)) ∙ h.0,
  Absent-append a new w ((b, t) ∷ xs) (h.1) (λ e. out.0 (sym e)),
  Chain-append m m' b t xs new w u (h.2) (out.1) old here made same,
)

pub first-append : (a v : ℕ) (xs ys : Items) → first (((a, v) ∷ xs) ++ ys) ≡ a
first-append a v xs ys = refl

pub last-append : (xs : Items) (b w : ℕ) → last (xs ++ (b, w) ∷ []) ≡ b
last-append [] b w = refl
last-append ((a, v) ∷ []) b w = refl
last-append (x ∷ y ∷ xs) b w = last-append (y ∷ xs) b w
