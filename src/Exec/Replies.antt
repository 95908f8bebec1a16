-- ===== src/Exec/Replies.antt =====
-- What the commands put in the output, and what they ask of the store.
use nohost_server.Base.{
  ◌≤◌, ltb, ℕ, suc, ◌-◌, ◌≡◌, refl, ap, ◌∙◌, true, false, List, [], ◌∷◌, ◌++◌, none, some, add32,
  length, arith,
}
use nohost_server.Base.Int.{print_nat}
use nohost_server.Client.{Client, Arg, client_write, arg_bytes}
use nohost_server.Client.Output.{pending, pending-client_write}
use nohost_server.Request.{Request, Library, World}
use nohost_server.Session.{Session, M, ◌>>=◌, ◌>>◌, return, reply, ok_line, key_of, request}
use nohost_server.Session.Blocks.{sent, asked, request-run}
use nohost_server.Exec.{
  put_key, exec_set, exec_get, exec_mget, mget_loop, mget_header, exec_mset, mset_loop,
}

bind-run :
    {A B : Type 0} (m : M A) (f : A → M B) (s : Session) (a : A) (s' : Session)
    → m s ≡ some (a, s')
    → (m >>= f) s ≡ f a s'
bind-run m f s a s' e = ap (λ o. elim o [ none ↦ none | some (b, t) ↦ f b t ]) e

-- The session with the arguments `args`.
abbrev pub given : Session → List Arg → Session
given s args = record s { client = record (s.client) { args = args } }

-- The session after `+OK` and a write.
abbrev pub stored : Library → Session → ℕ → List ℕ → Session
stored l s key value = record {
  client = record (client_write s.client ok_line 5) { output_valid = true };
  world = asked l s true key value;
}

pub exec_set-run :
    (l : Library) (s : Session) (name k v : Arg)
    → v.size ≤ 8192
    → l.takes (sent l s 1 (key_of s.client k) (arg_bytes s.client.buf v)) ≡ true
    → exec_set l (given s (name ∷ k ∷ v ∷ []))
      ≡ some (
        none,
        stored l (given s (name ∷ k ∷ v ∷ [])) (key_of s.client k) (arg_bytes s.client.buf v),
      )
unfolding exec_set put_key reply key_of client_write
exec_set-run l s name k v short takes =
    let g = given s (name ∷ k ∷ v ∷ []) in
    let key = key_of s.client k in
    let value = arg_bytes s.client.buf v in
    let w = asked l g true key value in
    let in_block : ltb 8192 v.size ≡ false = ground arith in
    rw in_block (
      bind-run (request l 1 key true value) (λ u. reply ok_line 5 >> return none) g tt
        (record g { world = w }) (request-run l g true key value takes))

pub exec_get-run :
    (l : Library) (s : Session) (name k : Arg)
    → l.takes (sent l s 2 (key_of s.client k) []) ≡ true
    → exec_get l (given s (name ∷ k ∷ []))
      ≡ some (
        none,
        record (given s (name ∷ k ∷ [])) { world = asked l s false (key_of s.client k) [] },
      )
unfolding exec_get key_of
exec_get-run l s name k takes =
    let g = given s (name ∷ k ∷ []) in
    let key = key_of s.client k in
    let w = asked l g false key [] in
    bind-run (request l 2 key true []) (λ u. return none) g tt (record g { world = w })
      (request-run l g false key [] takes)

-- exec_set of a key and a value of at most 8192 bytes, of which the store takes the write, ends
-- without an error, appends the line `+OK` to the output and marks it, and has made one request: a
-- write with the key's number raised by one and with the bytes of the value.
pub exec_set-writes :
    (l : Library) (s : Session) (name k v : Arg)
    → v.size ≤ 8192
    → l.takes (sent l s 1 (key_of s.client k) (arg_bytes s.client.buf v)) ≡ true
    → (s' : Session) × (exec_set l (given s (name ∷ k ∷ v ∷ [])) ≡ some (none, s'))
      × (s'.world ≡ asked l s true (key_of s.client k) (arg_bytes s.client.buf v))
      × (pending s'.client ≡ pending s.client ++ ok_line)
      × (s'.client.output_valid ≡ true)
unfolding client_write
exec_set-writes l s name k v short takes =
    (_, exec_set-run l s name k v short takes, refl, pending-client_write s.client ok_line, refl)

-- exec_get of a key that the store takes ends without an error, leaves the connection as it was and
-- has made one request: a read with the key's number raised by one.
pub exec_get-reads :
    (l : Library) (s : Session) (name k : Arg)
    → l.takes (sent l s 2 (key_of s.client k) []) ≡ true
    → (s' : Session) × (exec_get l (given s (name ∷ k ∷ [])) ≡ some (none, s'))
      × (s'.world ≡ asked l s false (key_of s.client k) [])
      × (s'.client ≡ (given s (name ∷ k ∷ [])).client)
exec_get-reads l s name k takes = (_, exec_get-run l s name k takes, refl, refl)

-- The store takes all.
abbrev pub TakesAll : Library → Type 0
TakesAll l = (r : Request) → l.takes r ≡ true

-- The world after one read for each of the keys, in their order.
abbrev pub read_all : Library → Session → List Arg → World
read_all l s [] = s.world
read_all l s (k ∷ keys) =
    read_all l (record s { world = asked l s false (key_of s.client k) [] }) keys

mget_loop-run :
    (l : Library) (args : List Arg) (s : Session)
    → TakesAll l
    → mget_loop l args s ≡ some (tt, record s { world = read_all l s args })
unfolding mget_loop
mget_loop-run l [] s all = refl
mget_loop-run l (k ∷ args) s all =
    let s' = record s { world = asked l s false (key_of s.client k) [] } in
    bind-run (request l 2 (key_of s.client k) true []) (λ u. mget_loop l args) s tt s'
      (request-run l s false (key_of s.client k) [] (all _))
    ∙ mget_loop-run l args s' all

announced : Client → ℕ → Client
announced c n =
    let msg = b'*' ∷ print_nat n ++ 13 ∷ 10 ∷ [] in
    client_write (record c { current_items = add32 c.current_items n }) msg (length msg)

mget_header-run :
    (s : Session) (name : Arg) (keys : List Arg)
    → mget_header (given s (name ∷ keys))
      ≡ some (tt, record s { client = announced ((given s (name ∷ keys)).client) (length keys) })
unfolding mget_header announced
mget_header-run s name keys =
    let less : suc (length keys) - 1 ≡ length keys = omega arith in
    ap (λ n. some (tt, record s { client = announced ((given s (name ∷ keys)).client) n })) less

-- exec_mget of some keys, of a store that takes all, ends without an error, appends `*`, the number
-- of the keys and a line end to the output, adds that number to the items that are to come, and has
-- made one read for each key, in their order.
pub exec_mget-reads_all :
    (l : Library) (s : Session) (name : Arg) (keys : List Arg)
    → TakesAll l
    → (s' : Session) × (exec_mget l (given s (name ∷ keys)) ≡ some (none, s'))
      × (s'.world ≡ read_all l (record s { client = s'.client }) keys)
      × (pending s'.client ≡ pending s.client ++ b'*' ∷ (print_nat (length keys) ++ 13 ∷ 10 ∷ []))
      × (s'.client.current_items ≡ add32 s.client.current_items (length keys))
unfolding exec_mget announced client_write
exec_mget-reads_all l s name keys all =
    let g = given s (name ∷ keys) in
    let h = record s { client = announced g.client (length keys) } in
    (
      record h { world = read_all l h keys },
      bind-run mget_header (λ u. mget_loop l keys >> return none) g tt h
            (mget_header-run s name keys)
          ∙ bind-run (mget_loop l keys) (λ u. return none) h tt
              (record h { world = read_all l h keys }) (mget_loop-run l keys h all),
      refl,
      pending-client_write s.client (b'*' ∷ print_nat (length keys) ++ 13 ∷ 10 ∷ []),
      refl,
    )

-- The world after one write for the first of each two arguments, without a value.
abbrev pub write_all : Library → Session → List Arg → World
write_all l s [] = s.world
write_all l s (k ∷ []) = asked l s true (key_of s.client k) []
write_all l s (k ∷ v ∷ args) =
    write_all l (record s { world = asked l s true (key_of s.client k) [] }) args

mset_loop-run :
    (l : Library) (args : List Arg) (s : Session)
    → TakesAll l
    → mset_loop l args s ≡ some (tt, record s { world = write_all l s args })
unfolding mset_loop
mset_loop-run l [] s all = refl
mset_loop-run l (k ∷ []) s all = request-run l s true (key_of s.client k) [] (all _)
mset_loop-run l (k ∷ v ∷ args) s all =
    let s' = record s { world = asked l s true (key_of s.client k) [] } in
    bind-run (request l 1 (key_of s.client k) true []) (λ u. mset_loop l args) s tt s'
      (request-run l s true (key_of s.client k) [] (all _))
    ∙ mset_loop-run l args s' all

-- exec_mset, of a store that takes all, ends without an error and appends the line `+OK` to the output,
-- and has made one write for each key, in their order, none of which has the bytes of its value.
pub exec_mset-writes_empty :
    (l : Library) (s : Session) (name : Arg) (args : List Arg)
    → TakesAll l
    → (s' : Session) × (exec_mset l (given s (name ∷ args)) ≡ some (none, s'))
      × (s'.world ≡ write_all l (given s (name ∷ args)) args)
      × (pending s'.client ≡ pending s.client ++ ok_line)
unfolding exec_mset reply client_write
exec_mset-writes_empty l s name args all =
    let g = given s (name ∷ args) in
    (
      _,
      bind-run (mset_loop l args) (λ u. reply ok_line 5 >> return none) g tt
          (record g { world = write_all l g args }) (mset_loop-run l args g all),
      refl,
      pending-client_write s.client ok_line,
    )
