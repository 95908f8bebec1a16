-- ===== src/Session.antt =====
-- exec.cc: a command is a step on a session: the connection and the global state. `none` is the
-- exit of the process in make_req, or a copy over what stands behind a block of memory, after which
-- nothing is known. A command returns NULL, `none`, or an error.
-- This is what the commands have in common: replies, requests and keys.
pub mod Blocks
mod Tests
use Prim.Native.String.{String}
use nohost_server.Base.{
  ℕ, ◌+◌, ◌-◌, ◌*◌, Bool, true, false, ◌||◌, List, [], ◌∷◌, ◌++◌, Option, none, some, ◌==◌,
  if◌then◌else◌, codes, drop, get_or,
}
use nohost_server.Base.Int.{atoi, atoi_at, u64_of_int}
use nohost_server.Client.{Client, Arg, literal, at, Error, message, client_write, arg_bytes}
use nohost_server.Request.{World, Library, alloc_req, alloc_dma, make_req}

pub record Session : Type 0 where
  pub client : Client
  pub world : World

-- A step: `none`, or a result and the session after it.
abbrev pub M : Type 0 → Type 0
M A = Session → Option (A × Session)

infixl 5 ◌>>=◌ ◌>>◌
abbrev pub ◌>>=◌ : {A B : Type 0} → M A → (A → M B) → M B
◌>>=◌ m f s = elim (m s) [ none ↦ none | some (a, s') ↦ f a s' ]

abbrev pub ◌>>◌ : {A B : Type 0} → M A → M B → M B
m >> k = m >>= λ _. k

abbrev pub return : {A : Type 0} → A → M A
return a s = some (a, s)

abbrev pub fail : String → M (Option Error)
fail text = return (some (message (codes text)))

-- `client_write(c, text, n)` and `c->output_valid = 1`.
unfoldable pub reply : List ℕ → ℕ → M (Unit {0})
reply text n s =
    some (tt, record s { client = record (client_write s.client text n) { output_valid = true } })

abbrev pub ok_line : List ℕ
ok_line = codes "+OK" ++ 13 ∷ 10 ∷ []

abbrev pub ko_line : List ℕ
ko_line = codes "+KO" ++ 13 ∷ 10 ∷ []

-- BUFSIZE
abbrev pub buf_size : ℕ
buf_size = 1024 * 1024

-- `atoi(arg + 4)`, where what lies behind a literal of the program counts as its end.
unfoldable pub key_of : Client → Arg → ℕ
key_of c a = u64_of_int (elim a.pointer [
  | literal bytes ↦ atoi (drop 4 bytes)
  | at p ↦ atoi_at (buf_size - (p + 4)) c.buf (p + 4)
])

abbrev pub no_arg : Arg
no_arg = record { pointer = literal []; size = 0 }

-- `argv[i]`, for an `i` below `argc`.
abbrev pub argv : Client → ℕ → Arg
argv c i = get_or c.args i no_arg

-- A request of `kind` for `key`; `dma` tells that alloc_dma is called, `value` is what is copied
-- into the block. `connection` is the pointer to the client.
unfoldable pub request : Library → ℕ → ℕ → Bool → List ℕ → M (Unit {0})
request l kind key dma value s =
    let r = record alloc_req { client = s.client.fd; key = key; kind = kind } in
    let allocated = if dma then alloc_dma l s.world r else (s.world, r) in
    elim (make_req l (allocated.0) (record (allocated.1) { value = value })) [
      | none ↦ none
      | some w ↦ some (tt, record s { world = w })
    ]

-- `islstr`: each byte is the character of `str` or the one 32 before it (as a `char`: 224 before the
-- NUL at its end). Where the source would read `str` behind its NUL, there is no match here.
unfoldable pub islstr : List ℕ → List ℕ → Bool
islstr [] [] = true
islstr [] (s ∷ str) = false
islstr (b ∷ bytes) [] = false
islstr (b ∷ bytes) (s ∷ str) = if b == s || b == s - 32 then islstr bytes str else false

unfoldable pub arg_is : Client → ℕ → String → Bool
arg_is c i str = islstr (arg_bytes c.buf (argv c i)) (codes str)
