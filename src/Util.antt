-- ===== src/Util.antt =====
-- util.cc: pattern_limits and atop.
pub mod Laws
mod Tests
use nohost_server.Base.{
  ◌%◌, ◌^◌, ℕ, zero, suc, ◌+◌, ◌-◌, ◌*◌, Bool, true, false, not, ◌||◌, ◌&&◌, List, [], ◌∷◌, ◌++◌,
  Option, none, some, leb, ltb, ◌==◌, if◌then◌else◌,
}
use nohost_server.Base.Int.{ℤ, pos, negsuc, is_digit}

-- The loop of atop. `ret` is an `int`, here its 32-bit pattern: where C leaves it undefined it wraps.
unfoldable pub atop_loop : ℕ → List ℕ → ℤ
atop_loop ret [] = if ltb ret (2 ^ 31) then pos ret else negsuc (2 ^ 32 - ret - 1)
atop_loop ret (b ∷ bs) = elim (is_digit b) [
  | true ↦ atop_loop ((ret * 10 + (b - 48)) % 2 ^ 32) bs
  | false ↦ negsuc 0
]

unfoldable pub atop : List ℕ → ℤ
unfolding atop_loop
atop bytes = atop_loop 0 bytes

-- The bytes before the first special one.
pub prefix : List ℕ → List ℕ
prefix [] = []
prefix (b ∷ bs) = if b == b'*' || (b == b'?' || (b == b'[' || b == 92)) then [] else b ∷ prefix bs

-- `(*end)[j-1]++`, or a 0 behind it where that is 0xFF.
pub raise_last : List ℕ → List ℕ
raise_last [] = []
raise_last (b ∷ []) = if b == 255 then 255 ∷ 0 ∷ [] else (b + 1) ∷ []
raise_last (b ∷ c ∷ bs) = b ∷ raise_last (c ∷ bs)

-- What pattern_limits returns and leaves in `start` and `end`, `none` for NULL.
pub record Limits : Type 0 where
  pub result : ℕ
  pub start : Option (List ℕ)
  pub stop : Option (List ℕ)

no_bytes : List ℕ → Bool
no_bytes [] = true
no_bytes (b ∷ bs) = false

pub is_star : List ℕ → Bool
is_star [] = false
is_star (b ∷ []) = b == b'*'
is_star (b ∷ c ∷ bs) = false

-- `star` is 1 from its declaration on, whatever the loop meets.
pub pattern_limits : List ℕ → Limits
unfolding prefix raise_last no_bytes is_star
pattern_limits pattern =
    let p = prefix pattern in
    if is_star pattern
    then record { result = 1; start = none; stop = none }
    else record { result = if no_bytes p then 1 else 0; start = some p; stop = some (raise_last p) }
