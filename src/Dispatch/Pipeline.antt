-- ===== src/Dispatch/Pipeline.antt =====
-- client.cc, client_exec_commands, on SET and GET commands that a client sent one after the other
-- without waiting for replies, against a specification of the connection's two sides: the requests
-- that the store gets, and the bytes that the client gets.
pub mod Loop
use nohost_server.Base.{
  ℕ, zero, suc, ◌+◌, ◌-◌, ◌≤◌, ◌<◌, ◌≡◌, refl, ap, sym, ◌∙◌, Bool, true, false, ◌||◌, List, [], ◌∷◌,
  ◌++◌, Option, none, some, codes, length, length-append, arith, Memory, Holds, Holds-append,
  append-nil, append_assoc, if◌then◌else◌, ◌==◌, leb,
}
use nohost_server.Base.Int.{ℤ}
use nohost_server.Client.{Client, Arg, Error, client_write}
use nohost_server.Client.Output.{pending, pending-client_write}
use nohost_server.Reader.{client_read_command}
use nohost_server.Reader.RoundTrip.{encode, taken_off, client_read_command-stands}
use nohost_server.Reader.Stands.{Standing}
use nohost_server.Request.{Library, World}
use nohost_server.Session.{Session, ok_line, buf_size}
use nohost_server.Session.Blocks.{ask}
use nohost_server.Exec.Replies.{given, stored, TakesAll}
use nohost_server.Dispatch.{
  Ended, returned, exec_command, after_exec, after_read, exec_loop, client_exec_commands,
}
use nohost_server.Dispatch.Parts.{Key, key_text, IsValidKey, exec_command-set, exec_command-get}

pub data Cmd : Type 0 where
  set_key : Key → List ℕ → Cmd
  get_key : Key → Cmd

abbrev pub parts : Cmd → List (List ℕ)
parts (set_key k value) = key_text k ∷ value ∷ []
parts (get_key k) = key_text k ∷ []

abbrev pub name_of : Cmd → List ℕ
name_of (set_key k value) = codes "set"
name_of (get_key k) = codes "get"

abbrev pub key_in : Cmd → Key
key_in (set_key k value) = k
key_in (get_key k) = k

abbrev pub sent_as : Cmd → List ℕ
sent_as cmd = encode (name_of cmd ∷ parts cmd)

-- What the client sends.
abbrev pub wire : List Cmd → List ℕ
wire [] = []
wire (cmd ∷ cmds) = sent_as cmd ++ wire cmds

-- What the store is asked: a write of the value or a read, in the commands' order.
abbrev pub serve_one : Library → ℕ → World → Cmd → World
serve_one l fd w (set_key k value) = ask l fd w true k.number value
serve_one l fd w (get_key k) = ask l fd w false k.number []

abbrev pub serve : Library → ℕ → World → List Cmd → World
serve l fd w [] = w
serve l fd w (cmd ∷ cmds) = serve l fd (serve_one l fd w cmd) cmds

-- What the client gets before the store answers: `+OK` for each SET.
abbrev pub reply_to : Cmd → List ℕ
reply_to (set_key k value) = ok_line
reply_to (get_key k) = []

abbrev pub replies : List Cmd → List ℕ
replies [] = []
replies (cmd ∷ cmds) = reply_to cmd ++ replies cmds

abbrev pub sets : Cmd → Bool
sets (set_key k value) = true
sets (get_key k) = false

abbrev pub any_set : Bool → List Cmd → Bool
any_set b [] = b
any_set b (cmd ∷ cmds) = any_set (b || sets cmd) cmds

-- A key that the commands can read, and a value that fits the block of its write.
abbrev pub IsValidCmd : Cmd → Type 0
IsValidCmd (set_key k value) = IsValidKey k × (length value ≤ 8192)
IsValidCmd (get_key k) = IsValidKey k

abbrev pub AllValid : List Cmd → Type 0
AllValid [] = Unit
AllValid (cmd ∷ cmds) = IsValidCmd cmd × AllValid cmds

-- The input buffer holds exactly these commands.
pub record InBuffer (c : Client) (cmds : List Cmd) : Type 0 where
  pub holds : Holds c.buf c.buf_idx (wire cmds)
  pub whole : c.buf_len ≡ length (wire cmds)
  pub room : c.buf_idx + c.buf_len ≤ buf_size
  pub start : c.buf_len ≡ 0 → c.buf_idx ≡ 0

-- How the run on these commands ends: the connection is kept, the buffer is empty, the store was
-- asked and the output extended as specified.
pub record Served (l : Library) (s : Session) (cmds : List Cmd) (e : Ended) : Type 0 where
  pub final : Session
  pub ended : e ≡ returned true final
  pub world : final.world ≡ serve l s.client.fd s.world cmds
  pub output : pending final.client ≡ pending s.client ++ replies cmds
  pub is_empty : final.client.buf_len ≡ 0
  pub from_start : final.client.buf_idx ≡ 0
  pub marked : final.client.output_valid ≡ any_set s.client.output_valid cmds
  pub offset : final.client.output_offset ≡ s.client.output_offset
  pub same_fd : final.client.fd ≡ s.client.fd
  pub same_buf : final.client.buf ≡ s.client.buf

-- What one command does to the connection and the store.
abbrev pub effect : Library → Session → Cmd → Session
effect l s (set_key k value) = stored l s k.number value
effect l s (get_key k) = record s { world = ask l s.client.fd s.world false k.number [] }

effect-pending :
    (l : Library) (s : Session) (cmd : Cmd)
    → pending (effect l s cmd).client ≡ pending s.client ++ reply_to cmd
unfolding client_write
effect-pending l s (set_key k value) = pending-client_write s.client ok_line
effect-pending l s (get_key k) = sym (append-nil (pending s.client))

-- The parts of the connection that a command leaves as they are, and what it marks.
record Kept (l : Library) (s : Session) (cmd : Cmd) : Type 0 where
  len : (effect l s cmd).client.buf_len ≡ s.client.buf_len
  idx : (effect l s cmd).client.buf_idx ≡ s.client.buf_idx
  buf : (effect l s cmd).client.buf ≡ s.client.buf
  fd : (effect l s cmd).client.fd ≡ s.client.fd
  offset : (effect l s cmd).client.output_offset ≡ s.client.output_offset
  marked : (effect l s cmd).client.output_valid ≡ s.client.output_valid || sets cmd
  world : (effect l s cmd).world ≡ serve_one l s.client.fd s.world cmd

or_true : (b : Bool) → true ≡ b || true
or_true true = refl
or_true false = refl

or_false : (b : Bool) → b ≡ b || false
or_false true = refl
or_false false = refl

effect-keeps : (l : Library) (s : Session) (cmd : Cmd) → Kept l s cmd
unfolding client_write
effect-keeps l s (set_key k value) = record {
  len = refl;
  idx = refl;
  buf = refl;
  fd = refl;
  offset = refl;
  marked = or_true s.client.output_valid;
  world = refl;
}
effect-keeps l s (get_key k) = record {
  len = refl;
  idx = refl;
  buf = refl;
  fd = refl;
  offset = refl;
  marked = or_false s.client.output_valid;
  world = refl;
}

exec_command-effect :
    (l : Library) (s : Session) (z : ℕ) (args : List Arg) (cmd : Cmd)
    → TakesAll l
    → z ≤ buf_size
    → IsValidCmd cmd
    → Standing s.client.buf z args (name_of cmd ∷ parts cmd)
    → exec_command l (given s args) ≡ some (none, effect l (given s args) cmd)
exec_command-effect l s z args (set_key k value) all room valid standing =
    exec_command-set l all s z room k value (valid.0) (valid.1) standing
exec_command-effect l s z args (get_key k) all room valid standing =
    exec_command-get l all s z room k valid standing
