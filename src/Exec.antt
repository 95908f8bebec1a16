-- ===== src/Exec.antt =====
-- exec.cc: the commands that read and write keys, and those that scan them.
pub mod Keeps
pub mod Header
pub mod Replies
mod Tests
use Prim.Native.String.{String}
use nohost_server.Base.{
  ℕ, zero, suc, ◌+◌, ◌-◌, ◌*◌, ◌^◌, Bool, true, false, not, ◌&&◌, ◌||◌, List, [], ◌∷◌, ◌++◌, Option,
  none, some, ltb, leb, ◌==◌, if◌then◌else◌, codes, length, take, drop, replicate, get_or, view,
  blit, add32, Memory,
}
use nohost_server.Base.Int.{ℤ, pos, negsuc, atoi, atoi_at, u64_of_int, print_nat, print_int}
use nohost_server.Client.{
  Client, Arg, Pointer, literal, at, Error, quit, message, client_write, client_write_byte,
  client_err_unknown_command, arg_bytes,
}
use nohost_server.Util.{atop}
use nohost_server.Request.{Request, World, Library, alloc_req, alloc_dma, make_req}
use nohost_server.Session.{
  Session, M, ◌>>=◌, ◌>>◌, return, fail, reply, ok_line, ko_line, key_of, argv, request, arg_is,
}

-- exec_set and exec_upt: alike but for the reply. A value of more than the 8192 bytes of its block is
-- copied all the same, over what stands behind the block: `none`.
unfoldable pub put_key : List ℕ → Library → M (Option Error)
unfolding reply request key_of
put_key line l s =
    let c = s.client in
    if not (length c.args == 3)
    then fail "wrong number of arguments for 'set' command" s
    else if ltb 8192 (argv c 2).size
    then none
    else (do
      request l 1 (key_of c (argv c 1)) true (arg_bytes c.buf (argv c 2))
      reply line 5
      return none)
        s

unfoldable pub exec_set : Library → M (Option Error)
unfolding put_key
exec_set l = put_key ok_line l

unfoldable pub exec_upt : Library → M (Option Error)
unfolding put_key
exec_upt l = put_key ko_line l

unfoldable pub exec_get : Library → M (Option Error)
unfolding request key_of
exec_get l s =
    let c = s.client in
    if not (length c.args == 2)
    then fail "wrong number of arguments for 'get' command" s
    else (do request l 2 (key_of c (argv c 1)) true []; return none) s

-- No block is allocated for a deletion.
unfoldable pub exec_del : Library → M (Option Error)
unfolding reply request key_of
exec_del l s =
    let c = s.client in
    if not (length c.args == 2)
    then fail "wrong number of arguments for 'set' command" s
    else (do request l 3 (key_of c (argv c 1)) false []; reply ko_line 5; return none) s

-- `for (i = 1; i < argc; i += 2)`, over the arguments that are left. The value is not copied.
unfoldable pub mset_loop : Library → List Arg → M (Unit {0})
unfolding request key_of
mset_loop l [] s = some (tt, s)
mset_loop l (k ∷ []) s = request l 1 (key_of s.client k) true [] s
mset_loop l (k ∷ v ∷ args) s = (do request l 1 (key_of s.client k) true []; mset_loop l args) s

unfoldable pub exec_mset : Library → M (Option Error)
unfolding mset_loop reply
exec_mset l s = (do mset_loop l (drop 1 s.client.args); reply ok_line 5; return none) s

unfoldable pub mget_loop : Library → List Arg → M (Unit {0})
unfolding request key_of
mget_loop l [] s = some (tt, s)
mget_loop l (k ∷ args) s = (do request l 2 (key_of s.client k) true []; mget_loop l args) s

-- `argc - 1`, for an `argc` that is at least 1.
unfoldable pub mget_header : M (Unit {0})
mget_header s =
    let c = s.client in
    let argc = length c.args in
    let msg = b'*' ∷ print_nat (argc - 1) ++ 13 ∷ 10 ∷ [] in
    let counted = record c { current_items = add32 c.current_items (argc - 1) } in
    some (tt, record s { client = client_write counted msg (length msg) })

unfoldable pub exec_mget : Library → M (Option Error)
unfolding mget_loop mget_header
exec_mget l s = (do mget_header; mget_loop l (drop 1 s.client.args); return none) s

unfoldable pub exec_quit : M (Option Error)
unfolding reply
exec_quit = do reply ok_line 5; return (some quit)

unfoldable pub exec_flushdb : M (Option Error)
unfolding reply
exec_flushdb s =
    if not (length s.client.args == 1)
    then fail "wrong number of arguments for 'flushdb' command" s
    else (do reply ok_line 5; return none) s

abbrev pub filler : ℕ
filler = 128

unfoldable pub write_filler : ℕ → Client → Client
write_filler zero c = c
write_filler (suc n) c = write_filler n (client_write_byte c b'?')

-- The iteration over the store is a comment in the source, so no key is found, and the limits of the
-- pattern have no effect.
unfoldable pub scan_header : Bool → List ℕ
scan_header scan =
    if scan
    then codes "*2"
      ++ 13 ∷ 10 ∷ codes "$1"
      ++ 13 ∷ 10 ∷ codes "0"
      ++ 13 ∷ 10 ∷ codes "*0"
      ++ 13 ∷ 10 ∷ []
    else codes "*0" ++ 13 ∷ 10 ∷ []

-- The header goes to the end of the first 128 bytes of the output, and `output_valid` is not set.
unfoldable pub exec_scan_keys : Bool → M (Option Error)
unfolding write_filler scan_header
exec_scan_keys scan s =
    let c = write_filler filler s.client in
    let nb = scan_header scan in
    some (
      none,
      record s {
        client = record c {
          output = blit c.output (filler - length nb) nb;
          output_offset = filler - length nb;
        };
      },
    )

unfoldable pub exec_keys : M (Option Error)
unfolding exec_scan_keys
exec_keys s =
    if not (length s.client.args == 2)
    then fail "wrong number of arguments for 'keys' command" s
    else exec_scan_keys false s
