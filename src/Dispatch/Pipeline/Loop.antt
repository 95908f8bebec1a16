-- ===== src/Dispatch/Pipeline/Loop.antt =====
-- client.cc, client_exec_commands: its loop over the commands that the input buffer holds.
use nohost_server.Base.{
  ℕ, zero, suc, ◌+◌, ◌-◌, ◌≤◌, ◌<◌, ◌≡◌, refl, ap, sym, ◌∙◌, true, false, List, [], ◌∷◌, ◌++◌,
  length, length-append, arith, Memory, Holds, Holds-append, append-nil, append_assoc,
  if◌then◌else◌, ◌==◌,
}
use nohost_server.Base.Int.{ℤ}
use nohost_server.Client.{Client}
use nohost_server.Client.Output.{pending}
use nohost_server.Reader.RoundTrip.{
  taken_off, client_read_command-stands, client_read_command-empty,
}
use nohost_server.Request.{Library}
use nohost_server.Session.{Session}
use nohost_server.Exec.Replies.{TakesAll}
use nohost_server.Dispatch.{
  Ended, returned, after_exec, after_read, exec_loop, client_exec_commands,
}
use nohost_server.Dispatch.Pipeline.{
  Cmd, name_of, parts, sent_as, wire, replies, reply_to, any_set, AllValid, InBuffer, Served,
  effect, effect-pending, effect-keeps, exec_command-effect,
}

holds_rest :
    (m : Memory) (p left : ℕ) (bs : List ℕ)
    → length bs ≡ left
    → Holds m p bs
    → Holds m (if left == 0 then 0 else p) bs
holds_rest m p left [] e h = tt
holds_rest m p left (b ∷ bs) e h = let more : (left == 0) ≡ false = ground arith in rw more h

-- The buffer behind the first command holds the others.
InBuffer-rest :
    (c c' : Client) (cmd : Cmd) (cmds : List Cmd)
    → c'.buf ≡ c.buf
    → c'.buf_len ≡ c.buf_len - length (sent_as cmd)
    → c'.buf_idx
      ≡ (if c.buf_len - length (sent_as cmd) == 0 then 0 else c.buf_idx + length (sent_as cmd))
    → InBuffer c (cmd ∷ cmds)
    → InBuffer c' cmds
InBuffer-rest c c' cmd cmds same len idx i =
    let sum = length-append {0} (sent_as cmd) (wire cmds) in
    let left = c.buf_len - length (sent_as cmd) in
    let behind = (Holds-append c.buf c.buf_idx (sent_as cmd) (wire cmds) i.holds).1 in
    let rest =
      holds_rest c.buf (c.buf_idx + length (sent_as cmd)) left (wire cmds)
        (omega (arith, sum, i.whole)) behind in
    record {
      holds = rw (same, idx) rest;
      whole = omega (arith, len, sum, i.whole);
      room = ground (arith, len, idx, sum, i.whole, i.room);
      start = λ e. ground (arith, len, idx);
    }

-- One round.
exec_loop-cmd :
    (f : ℕ) (l : Library) (garbage : ℤ) (s : Session) (cmd : Cmd) (cmds : List Cmd)
    → TakesAll l
    → AllValid (cmd ∷ cmds)
    → InBuffer s.client (cmd ∷ cmds)
    → (args : _) × (cap : ℕ) × (exec_loop (suc f) l garbage s
        ≡ exec_loop f l garbage (
            effect l
              (record s { client = taken_off s.client (length (sent_as cmd)) args cap })
              cmd))
unfolding exec_loop after_read after_exec
exec_loop-cmd f l garbage s cmd cmds all valid i =
    let c = s.client in
    let n = length (sent_as cmd) in
    let sum = length-append {0} (sent_as cmd) (wire cmds) in
    let first = (Holds-append c.buf c.buf_idx (sent_as cmd) (wire cmds) i.holds).0 in
    let (args, cap, read, standing) =
      client_read_command-stands garbage c (name_of cmd) (parts cmd) first
        (omega (arith, sum, i.whole)) in
    let s1 : Session = record s { client = taken_off c n args cap } in
    let run =
      exec_command-effect l s1 (c.buf_idx + c.buf_len) args cmd all i.room (valid.0) standing in
    let again : Session → Ended = exec_loop f l garbage in
    (args, cap, ap (after_read l again s.world) read ∙ ap (after_exec again) run)

-- No command is left.
nothing_left :
    (f : ℕ) (l : Library) (garbage : ℤ) (s : Session)
    → s.client.buf_len ≡ 0
    → exec_loop (suc f) l garbage s
      ≡ returned true (record s { client = record (s.client) { args = [] } })
unfolding exec_loop after_read
nothing_left f l garbage s e =
    ap (after_read l (exec_loop f l garbage) s.world) (client_read_command-empty garbage s.client e)

exec_loop-serves :
    (cmds : List Cmd) (f : ℕ) (l : Library) (garbage : ℤ) (s : Session)
    → length cmds < f
    → TakesAll l
    → AllValid cmds
    → InBuffer s.client cmds
    → Served l s cmds (exec_loop f l garbage s)
exec_loop-serves cmds zero l garbage s enough all valid i = absurd (omega arith)
exec_loop-serves [] (suc f) l garbage s enough all valid i = record {
  final = record s { client = record (s.client) { args = [] } };
  ended = nothing_left f l garbage s i.whole;
  world = refl;
  output = sym (append-nil (pending s.client));
  is_empty = i.whole;
  from_start = i.start i.whole;
  marked = refl;
  offset = refl;
  same_fd = refl;
  same_buf = refl;
}
exec_loop-serves (cmd ∷ cmds) (suc f) l garbage s enough all valid i =
    let (args, cap, round) = exec_loop-cmd f l garbage s cmd cmds all valid i in
    let s1 : Session = record s { client = taken_off s.client (length (sent_as cmd)) args cap } in
    let s2 = effect l s1 cmd in
    let k = effect-keeps l s1 cmd in
    let rest = InBuffer-rest s.client s2.client cmd cmds k.buf k.len k.idx i in
    let more = exec_loop-serves cmds f l garbage s2 (omega arith) all (valid.1) rest in
    record {
      final = more.final;
      ended = round ∙ more.ended;
      world = more.world ∙ rw (k.fd, k.world) refl;
      output =
          more.output
          ∙ ap (λ t. t ++ replies cmds) (effect-pending l s1 cmd)
          ∙ append_assoc (pending s.client) (reply_to cmd) (replies cmds);
      is_empty = more.is_empty;
      from_start = more.from_start;
      marked = more.marked ∙ ap (λ b. any_set b cmds) k.marked;
      offset = more.offset ∙ k.offset;
      same_fd = more.same_fd ∙ k.fd;
      same_buf = more.same_buf ∙ k.buf;
    }

wire-longer : (cmds : List Cmd) → length cmds ≤ length (wire cmds)
wire-longer [] = omega arith
wire-longer (cmd ∷ cmds) =
    omega (arith, wire-longer cmds, length-append {0} (sent_as cmd) (wire cmds))

-- client_exec_commands on an input buffer that holds exactly some SET and GET commands as clients
-- send them, of keys whose number fits an `int`, with a store that takes all, keeps the connection
-- and leaves the buffer empty; the store got one write or read for each command, in their order,
-- with its key's number and its value, and the output got `+OK` for each SET and nothing for a GET.
pub client_exec_commands-serves :
    (l : Library) (garbage : ℤ) (s : Session) (cmds : List Cmd)
    → TakesAll l
    → AllValid cmds
    → InBuffer s.client cmds
    → Served l s cmds (client_exec_commands l garbage s)
unfolding client_exec_commands
client_exec_commands-serves l garbage s cmds all valid i =
    exec_loop-serves cmds (s.client.buf_len + 1) l garbage s
      (omega (arith, wire-longer cmds, i.whole)) all valid i
