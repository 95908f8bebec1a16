-- ===== src/PriorityQueue/Weights.antt =====
-- The items of a heap as a multiset: the sum of any weight over the cells in use.
use nohost_server.Base.{ℕ, zero, suc, ◌+◌, ◌≤◌, ◌<◌, ◌≡◌, refl, arith, store, dec_lt}
use nohost_server.PriorityQueue.{Node}

module _ (w : Node → ℕ) where
  -- The weights of the cells 1 to `n`.
  unfoldable pub total : ℕ → (ℕ → Node) → ℕ
  total zero f = 0
  total (suc n) f = total n f + w (f (suc n))

  pub total-store_above :
      (n : ℕ) (f : ℕ → Node) (i : ℕ) (a : Node) → n < i → total n (store f i a) ≡ total n f
  unfolding total
  total-store_above zero f i a h = refl
  total-store_above (suc n) f i a h = ground (arith, total-store_above n f i a)

  pub total-store :
      (n : ℕ) (f : ℕ → Node) (i : ℕ) (a : Node)
      → 1 ≤ i
      → i ≤ n
      → total n (store f i a) + w (f i) ≡ total n f + w a
  unfolding total
  total-store zero f i a lo h = absurd (omega arith)
  total-store (suc n) f i a lo h = elim (dec_lt i (suc n)) [
    | yes below ↦ ground (arith, total-store n f i a lo)
    | no last ↦ ground (arith, total-store_above n f i a)
  ]
