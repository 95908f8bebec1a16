-- ===== src/Dispatch/Parts.antt =====
-- exec.cc, exec_command, on SET and GET as clients send them: `set` or `get`, a key of four
-- characters and a decimal number, the value.
use nohost_server.Base.{
  ℕ, ◌+◌, ◌-◌, ◌^◌, ◌≤◌, ◌<◌, ◌≡◌, refl, ◌∙◌, false, List, [], ◌∷◌, ◌++◌, none, some, codes, length,
  length-append, arith, Holds-append, append_assoc,
}
use nohost_server.Base.Int.{u64_of_int, print_nat}
use nohost_server.Base.Int.InMemory.{atoi_at-print_nat}
use nohost_server.Client.{Client, Arg}
use nohost_server.Reader.Lines.{crlf}
use nohost_server.Reader.Stands.{Stands, Standing, all_done, one_more, arg_bytes-Stands}
use nohost_server.Request.{Library}
use nohost_server.Session.{Session, key_of, buf_size, arg_is, islstr}
use nohost_server.Session.Blocks.{asked}
use nohost_server.Exec.Replies.{given, stored, TakesAll, exec_set-run, exec_get-run}
use nohost_server.Dispatch.{exec_command, is_blank}

pub record Key : Type 0 where
  pub prefix : List ℕ
  pub number : ℕ

abbrev pub key_text : Key → List ℕ
key_text k = k.prefix ++ print_nat k.number

-- The number fits an `int`.
pub record IsValidKey (k : Key) : Type 0 where
  pub of_four : length k.prefix ≡ 4
  pub is_int : k.number < 2 ^ 31

-- The key number that the commands read is the one that the client printed.
pub key_of-Stands :
    (c : Client) (z : ℕ) (a : Arg) (k : Key)
    → z ≤ buf_size
    → IsValidKey k
    → Stands c.buf z a (key_text k)
    → key_of c a ≡ k.number
unfolding key_of u64_of_int
key_of-Stands c z a k room valid s =
    let digits = print_nat k.number in
    let p = s.place in
    let text = rw (append_assoc k.prefix digits crlf) at s.bytes in
    let after_prefix =
      rw valid.of_four at (Holds-append c.buf p k.prefix (digits ++ crlf) text).1 in
    let (number, end_here) = Holds-append c.buf (p + 4) digits crlf after_prefix in
    let size = length-append k.prefix digits in
    let reads =
      atoi_at-print_nat (buf_size - (p + 4)) k.number c.buf (p + 4) number (rw end_here.0 refl)
        (omega (arith, size, valid.of_four, s.fits)) in
    rw (s.is, reads) (omega (arith, valid.is_int))

module _ (l : Library) (all : TakesAll l) (s : Session) (z : ℕ) (room : z ≤ buf_size) where
  -- SET of a key and a value that fits its block.
  pub exec_command-set :
      {args : List Arg} (k : Key) (value : List ℕ)
      → IsValidKey k
      → length value ≤ 8192
      → Standing s.client.buf z args (codes "set" ∷ key_text k ∷ value ∷ [])
      → exec_command l (given s args) ≡ some (none, stored l (given s args) k.number value)
  unfolding exec_command arg_is is_blank islstr
  exec_command-set k value valid short
        (one_more {a = a} name (one_more {a = b} key (one_more {a = v} held all_done))) =
      let named = arg_bytes-Stands s.client.buf z a _ name in
      let number = key_of-Stands s.client z b k room valid key in
      let bytes = arg_bytes-Stands s.client.buf z v _ held in
      rw named (exec_set-run l s a b v (rw held.is short) (all _) ∙ rw (number, bytes) refl)

  -- GET of a key.
  pub exec_command-get :
      {args : List Arg} (k : Key)
      → IsValidKey k
      → Standing s.client.buf z args (codes "get" ∷ key_text k ∷ [])
      → exec_command l (given s args)
        ≡ some (none, record (given s args) { world = asked l s false k.number [] })
  unfolding exec_command arg_is is_blank islstr
  exec_command-get k valid (one_more {a = a} name (one_more {a = b} key all_done)) =
      let named = arg_bytes-Stands s.client.buf z a _ name in
      let number = key_of-Stands s.client z b k room valid key in
      rw named (exec_get-run l s a b (all _) ∙ rw number refl)
