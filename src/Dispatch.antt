-- ===== src/Dispatch.antt =====
-- exec.cc: exec_scan, the commands that are replies of another server, and exec_command; client.cc:
-- client_exec_commands, which runs the commands in the input buffer.
pub mod Progress
pub mod Parts
pub mod Pipeline
mod Tests
use Prim.Native.String.{String}
use nohost_server.Base.{
  ℕ, zero, suc, ◌+◌, Bool, true, false, not, ◌&&◌, ◌||◌, List, [], ◌∷◌, Option, none, some, leb,
  ◌==◌, if◌then◌else◌, codes, length, drop, Memory,
}
use nohost_server.Base.Int.{ℤ, pos, negsuc}
use nohost_server.Client.{
  Client, Arg, Error, incomplete, quit, message, client_write_error, client_err_unknown_command,
  arg_bytes,
}
use nohost_server.Reader.{client_read_command}
use nohost_server.Request.{World, Library}
use nohost_server.Session.{Session, M, fail, argv, arg_is, islstr}
use nohost_server.Util.{atop}
use nohost_server.Exec.{
  exec_set, exec_upt, exec_get, exec_del, exec_mset, exec_mget, exec_quit, exec_flushdb, exec_keys,
  exec_scan_keys,
}

-- The options of exec_scan, over the arguments that are left; the pattern and the count have no
-- effect on what follows.
unfoldable pub scan_options : Memory → List Arg → Option Error
scan_options buf [] = none
scan_options buf (o ∷ []) = some (message (codes "syntax error"))
scan_options buf (o ∷ v ∷ args) =
    let rest = scan_options buf args in
    if islstr (arg_bytes buf o) (codes "match")
    then rest
    else if islstr (arg_bytes buf o) (codes "count")
    then elim (atop (arg_bytes buf v)) [
      | pos n ↦ rest
      | negsuc n ↦ some (message (codes "value is not an integer or out of range"))
    ]
    else some (message (codes "syntax error"))

unfoldable pub exec_scan : M (Option Error)
unfolding scan_options
exec_scan s =
    let c = s.client in
    if leb (length c.args) 1
    then fail "wrong number of arguments for 'scan' command" s
    else elim (atop (arg_bytes c.buf (argv c 1))) [
      | negsuc n ↦ fail "invalid cursor" s
      | pos n ↦ elim (scan_options c.buf (drop 2 c.args)) [
        | some e ↦ some (some e, s)
        | none ↦ exec_scan_keys true s
      ]
    ]

-- exec_ok, exec_ko, exec_bulk and exec_not: a check of the number of arguments.
unfoldable pub exec_reply : ℕ → String → M (Option Error)
exec_reply n text s = if not (length s.client.args == n) then fail text s else some (none, s)

unfoldable pub unknown_command : M (Option Error)
unknown_command s =
    let a = argv s.client 0 in
    let (c, e) = client_err_unknown_command s.client (arg_bytes s.client.buf a) a.size in
    some (some e, record s { client = c })

-- Nothing to do: no argument, or one that is empty.
unfoldable pub is_blank : List Arg → Bool
is_blank [] = true
is_blank (a ∷ []) = a.size == 0
is_blank (a ∷ b ∷ args) = false

unfoldable pub exec_command : Library → M (Option Error)
unfolding is_blank unknown_command
exec_command l s =
    let is = arg_is s.client 0 in
    if is_blank s.client.args
    then some (none, s)
    else if is "set"
    then exec_set l s
    else if is "mset"
    then exec_mset l s
    else if is "get"
    then exec_get l s
    else if is "mget"
    then exec_mget l s
    else if is "del"
    then exec_del l s
    else if is "quit"
    then exec_quit s
    else if is "keys"
    then exec_keys s
    else if is "scan"
    then exec_scan s
    else if is "flushdb"
    then exec_flushdb s
    else if is "upt"
    then exec_upt l s
    else if is "OK"
    then exec_reply 1 "wrong number of arguments for 'ok' command" s
    else if is "BULK"
    then exec_reply 2 "wrong number of arguments for 'bulk' command" s
    else if is "NOT"
    then exec_reply 1 "wrong number of arguments for 'not' command" s
    else if is "KO"
    then exec_reply 1 "wrong number of arguments for 'ok' command" s
    else unknown_command s

-- How client_exec_commands ends: it returns whether the connection is kept; the process exits, or a
-- command copied a value over what stands behind its block; or the model's fuel is used up.
pub data Ended : Type 0 where
  returned : Bool → Session → Ended
  exited : Ended
  out_of_fuel : Ended

after_exec : (Session → Ended) → Option (Option Error × Session) → Ended
after_exec again none = exited
after_exec again (some (none, s)) = again s
after_exec again (some (some quit, s)) = returned false s
after_exec again (some (some incomplete, s)) =
    returned true (record s { client = client_write_error s.client incomplete })
after_exec again (some (some (message m), s)) =
    returned true (record s { client = client_write_error s.client (message m) })

after_read : Library → (Session → Ended) → World → Client × Option Error → Ended
after_read l again w (c, some incomplete) = returned true (record { client = c; world = w })
after_read l again w (c, some quit) =
    returned false (record { client = client_write_error c quit; world = w })
after_read l again w (c, some (message m)) =
    returned false (record { client = client_write_error c (message m); world = w })
after_read l again w (c, none) =
    after_exec again (exec_command l (record { client = c; world = w }))

-- The loop; `garbage` is what client_read_command finds in a variable that it does not initialise.
exec_loop : ℕ → Library → ℤ → Session → Ended
exec_loop zero l garbage s = out_of_fuel
exec_loop (suc f) l garbage s =
    after_read l (λ s'. exec_loop f l garbage s') s.world (client_read_command garbage s.client)

-- A round that goes on has taken a byte off the buffer: the fuel is `buf_len + 1`.
unfoldable pub client_exec_commands : Library → ℤ → Session → Ended
unfolding exec_loop after_read after_exec
client_exec_commands l garbage s = exec_loop (s.client.buf_len + 1) l garbage s
