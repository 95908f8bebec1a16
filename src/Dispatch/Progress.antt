-- ===== src/Dispatch/Progress.antt =====
-- client.cc, client_exec_commands: the end of its loop.
use nohost_server.Base.{
  ℕ, zero, suc, ◌+◌, ◌<◌, ◌≡◌, ◌≢◌, refl, Bool, true, not, Option, none, some, ◌==◌, leb, length,
  arith,
}
use nohost_server.Base.Int.{ℤ, pos, negsuc}
use nohost_server.Client.{Client, Error, incomplete, quit, message, client_err_unknown_command}
use nohost_server.Session.{Session, fail, arg_is}
use nohost_server.Request.{Library, World}
use nohost_server.Scan.{Outcome}
use nohost_server.Telnet.Progress.{Took, shrunk}
use nohost_server.Reader.Progress.{client_read_command-Took}
use nohost_server.Exec.{exec_scan_keys}
use nohost_server.Exec.Keeps.{
  Keeps, exited, kept, Keeping, Keeps-if, exec_set-Keeping, exec_mset-Keeping, exec_get-Keeping,
  exec_mget-Keeping, exec_del-Keeping, exec_quit-Keeping, exec_keys-Keeping, exec_flushdb-Keeping,
  exec_upt-Keeping, exec_scan_keys-Keeping,
}
use nohost_server.Dispatch.{
  Ended, returned, exited, out_of_fuel, exec_scan, exec_reply, unknown_command, exec_command,
  is_blank, after_exec, after_read, exec_loop, client_exec_commands,
}

options-Keeps :
    (s : Session) (o : Option Error)
    → Keeps s.client.buf_len (elim o [ some e ↦ some (some e, s) | none ↦ exec_scan_keys true s ])
options-Keeps s none = exec_scan_keys-Keeping true s
options-Keeps s (some e) = kept (some e) s refl

cursor-Keeps :
    (s : Session) (v : ℤ) (o : Option Error)
    → Keeps s.client.buf_len (elim v [
      | negsuc n ↦ fail "invalid cursor" s
      | pos n ↦ elim o [ some e ↦ some (some e, s) | none ↦ exec_scan_keys true s ]
    ])
cursor-Keeps s (negsuc n) o = kept _ s refl
cursor-Keeps s (pos n) o = options-Keeps s o

exec_scan-Keeping : Keeping exec_scan
unfolding exec_scan
exec_scan-Keeping s =
    Keeps-if (leb (length s.client.args) 1) s.client.buf_len _ _ (kept _ s refl)
      (cursor-Keeps s _ _)

exec_reply-Keeping : (n : ℕ) (text : _) → Keeping (exec_reply n text)
unfolding exec_reply
exec_reply-Keeping n text s =
    Keeps-if (not (length s.client.args == n)) s.client.buf_len _ _ (kept _ s refl)
      (kept none s refl)

unknown_command-Keeping : Keeping unknown_command
unfolding unknown_command client_err_unknown_command
unknown_command-Keeping s = kept _ _ refl

exec_command-Keeping : (l : Library) → Keeping (exec_command l)
unfolding exec_command
exec_command-Keeping l s =
    let n = s.client.buf_len in
    let is = arg_is s.client 0 in
    Keeps-if (is_blank s.client.args) n _ _ (kept none s refl) (
      Keeps-if (is "set") n _ _ (exec_set-Keeping l s) (
        Keeps-if (is "mset") n _ _ (exec_mset-Keeping l s) (
          Keeps-if (is "get") n _ _ (exec_get-Keeping l s) (
            Keeps-if (is "mget") n _ _ (exec_mget-Keeping l s) (
              Keeps-if (is "del") n _ _ (exec_del-Keeping l s) (
                Keeps-if (is "quit") n _ _ (exec_quit-Keeping s) (
                  Keeps-if (is "keys") n _ _ (exec_keys-Keeping s) (
                    Keeps-if (is "scan") n _ _ (exec_scan-Keeping s) (
                      Keeps-if (is "flushdb") n _ _ (exec_flushdb-Keeping s) (
                        Keeps-if (is "upt") n _ _ (exec_upt-Keeping l s) (
                          Keeps-if (is "OK") n _ _ (exec_reply-Keeping 1 _ s) (
                            Keeps-if (is "BULK") n _ _ (exec_reply-Keeping 2 _ s) (
                              Keeps-if (is "NOT") n _ _ (exec_reply-Keeping 1 _ s) (
                                Keeps-if (is "KO") n _ _ (exec_reply-Keeping 1 _ s)
                                  (unknown_command-Keeping s)))))))))))))))

data Ends : Ended → Type 0 where
  by_return : {alive : Bool} {s : Session} → Ends (returned alive s)
  by_exit : Ends exited

after_exec-Ends :
    (again : Session → Ended) (n : ℕ) (o : Option (Option Error × Session))
    → ((s : Session) → s.client.buf_len ≡ n → Ends (again s))
    → Keeps n o
    → Ends (after_exec again o)
unfolding after_exec
after_exec-Ends again n none h k = by_exit
after_exec-Ends again n o h (kept none s e) = h s e
after_exec-Ends again n o h (kept (some quit) s e) = by_return
after_exec-Ends again n o h (kept (some incomplete) s e) = by_return
after_exec-Ends again n o h (kept (some (message m)) s e) = by_return

after_read-Ends :
    (l : Library) (again : Session → Ended) (w : World) (c : Client) (o : Outcome)
    → ((s : Session) → s.client.buf_len < c.buf_len → Ends (again s))
    → Took c o
    → Ends (after_read l again w o)
unfolding after_read
after_read-Ends l again w c (d, some incomplete) h t = by_return
after_read-Ends l again w c (d, some quit) h t = by_return
after_read-Ends l again w c (d, some (message m)) h t = by_return
after_read-Ends l again w c (d, none) h (shrunk lt) =
    after_exec-Ends again d.buf_len _ (λ s e. h s (omega arith))
      (exec_command-Keeping l (record { client = d; world = w }))

exec_loop-Ends :
    (f : ℕ) (l : Library) (garbage : ℤ) (s : Session)
    → s.client.buf_len < f
    → Ends (exec_loop f l garbage s)
unfolding exec_loop
exec_loop-Ends zero l garbage s lt = absurd (omega arith)
exec_loop-Ends (suc f) l garbage s lt =
    after_read-Ends l (λ s'. exec_loop f l garbage s') s.world s.client _
      (λ s' le. exec_loop-Ends f l garbage s' (omega arith))
      (client_read_command-Took garbage s.client)

Ends-fuel : (e : Ended) → Ends e → e ≢ out_of_fuel
Ends-fuel (returned alive s) by_return eq = cc
Ends-fuel exited by_exit eq = cc
Ends-fuel out_of_fuel h eq = elim h [ ]

-- client_exec_commands ends whatever is in the input buffer, whatever the store answers and whatever
-- the uninitialised variable holds: the connection's `buf_len + 1` rounds are never used up.
pub client_exec_commands-ends :
    (l : Library) (garbage : ℤ) (s : Session) → client_exec_commands l garbage s ≢ out_of_fuel
unfolding client_exec_commands
client_exec_commands-ends l garbage s =
    Ends-fuel _ (exec_loop-Ends (s.client.buf_len + 1) l garbage s (omega arith))
