-- ===== src/Reader/Stands.antt =====
-- Arguments that lie in the input buffer with a line end behind them, as those of bulk strings do.
use nohost_server.Base.{
  ℕ, ◌+◌, ◌≤◌, ◌≡◌, refl, ap, List, [], ◌∷◌, ◌++◌, length, Memory, Holds, Holds-append, view-Holds,
}
use mathlib.Core.Path.{ap₂}
use nohost_server.Client.{Arg, at, arg_bytes, arg_texts}
use nohost_server.Reader.Lines.{crlf}

-- The argument is the text `x`, somewhere before `z`.
pub record Stands (m : Memory) (z : ℕ) (a : Arg) (x : List ℕ) : Type 0 where
  pub place : ℕ
  pub is : a ≡ record { pointer = at place; size = length x }
  pub bytes : Holds m place (x ++ crlf)
  pub fits : place + length x + 2 ≤ z

pub data Standing (m : Memory) (z : ℕ) : List Arg → List (List ℕ) → Type 0 where
  all_done : Standing m z [] []
  one_more :
      {a : Arg} {x : List ℕ} {args : List Arg} {xs : List (List ℕ)}
      → Stands m z a x
      → Standing m z args xs
      → Standing m z (a ∷ args) (x ∷ xs)

pub arg_bytes-Stands :
    (m : Memory) (z : ℕ) (a : Arg) (x : List ℕ) → Stands m z a x → arg_bytes m a ≡ x
unfolding arg_bytes
arg_bytes-Stands m z a x s =
    rw s.is (view-Holds m s.place x (Holds-append m s.place x crlf s.bytes).0)

pub arg_texts-Standing :
    (m : Memory) (z : ℕ) (args : List Arg) (xs : List (List ℕ))
    → Standing m z args xs
    → arg_texts m args ≡ xs
unfolding arg_texts
arg_texts-Standing m z [] [] all_done = refl
arg_texts-Standing m z [] (x ∷ xs) h = elim h [ ]
arg_texts-Standing m z (a ∷ args) [] h = elim h [ ]
arg_texts-Standing m z (a ∷ args) (x ∷ xs) (one_more s more) =
    ap₂ ◌∷◌ (arg_bytes-Stands m z a x s) (arg_texts-Standing m z args xs more)

pub arg_texts-append :
    (buf : Memory) (xs ys : List Arg)
    → arg_texts buf (xs ++ ys) ≡ arg_texts buf xs ++ arg_texts buf ys
unfolding arg_texts
arg_texts-append buf [] ys = refl
arg_texts-append buf (x ∷ xs) ys = ap (◌∷◌ (arg_bytes buf x)) (arg_texts-append buf xs ys)
