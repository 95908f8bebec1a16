-- ===== src/Exec/Keeps.antt =====
-- exec.cc: the number of bytes in the input buffer over each command.
use nohost_server.Base.{
  ℕ, zero, suc, ◌≡◌, refl, sym, Bool, true, false, not, Option, none, some, List, [], ◌∷◌,
  if◌then◌else◌, ◌==◌, ltb, length, drop,
}
use nohost_server.Client.{Client, quit, client_write_byte, Arg, client_write}
use nohost_server.Session.{
  Session, M, ◌>>=◌, return, reply, argv, key_of, request, ok_line, ko_line,
}
use nohost_server.Request.{Library, World}
use nohost_server.Exec.{
  exec_set, exec_upt, put_key, exec_get, exec_del, mset_loop, exec_mset, mget_header, mget_loop,
  exec_mget, exec_quit, exec_flushdb, exec_keys, exec_scan_keys, write_filler, filler,
}

pub data Keeps {A : Type 0} (n : ℕ) : Option (A × Session) → Type 0 where
  exited : Keeps n none
  kept : (a : A) (s : Session) → s.client.buf_len ≡ n → Keeps n (some (a, s))

pub Keeps-if :
    {A : Type 0} (b : Bool) (n : ℕ) (x y : Option (A × Session))
    → Keeps n x
    → Keeps n y
    → Keeps n (if b then x else y)
Keeps-if true n x y hx hy = hx
Keeps-if false n x y hx hy = hy

-- A step that keeps the number of bytes in the input buffer.
abbrev pub Keeping : {A : Type 0} → M A → Type 0
Keeping m = (s : Session) → Keeps s.client.buf_len (m s)

Keeps-elim :
    {A B : Type 0} (o : Option (A × Session)) (f : A → M B) (n : ℕ)
    → Keeps n o
    → ((a : A) → Keeping (f a))
    → Keeps n (elim o [ none ↦ none | some (a, s') ↦ f a s' ])
Keeps-elim o f n exited h = exited
Keeps-elim {A = A} {B = B} o f n (kept a s e) h = rw (sym e) (h a s)

pub Keeping-bind :
    {A B : Type 0} (m : M A) (f : A → M B)
    → Keeping m
    → ((a : A) → Keeping (f a))
    → Keeping (m >>= f)
Keeping-bind m f hm hf s = Keeps-elim (m s) f s.client.buf_len (hm s) hf

pub Keeping-return : {A : Type 0} (a : A) → Keeping (return a)
Keeping-return a s = kept a s refl

reply-Keeping : (text : List ℕ) (n : ℕ) → Keeping (reply text n)
unfolding reply client_write
reply-Keeping text n s = kept tt _ refl

request-made :
    (s : Session) (o : Option World)
    → Keeps {A = Unit {0}} s.client.buf_len
        (elim o [ none ↦ none | some w ↦ some (tt, record s { world = w }) ])
request-made s none = exited
request-made s (some w) = kept tt _ refl

request-Keeping :
    (l : Library) (kind key : ℕ) (dma : Bool) (value : List ℕ)
    → Keeping (request l kind key dma value)
unfolding request
request-Keeping l kind key dma value s = request-made s _

put_key-Keeping : (line : List ℕ) (l : Library) → Keeping (put_key line l)
unfolding put_key
put_key-Keeping line l s =
    Keeps-if (not (length s.client.args == 3)) s.client.buf_len _ _ (kept _ s refl) (
      Keeps-if (ltb 8192 (argv s.client 2).size) s.client.buf_len _ _ exited (
        Keeping-bind _ _ (request-Keeping l 1 _ true _)
          (λ u. Keeping-bind _ _ (reply-Keeping line 5) (λ v. Keeping-return none)) s))

pub exec_set-Keeping : (l : Library) → Keeping (exec_set l)
unfolding exec_set
exec_set-Keeping l = put_key-Keeping ok_line l

pub exec_upt-Keeping : (l : Library) → Keeping (exec_upt l)
unfolding exec_upt
exec_upt-Keeping l = put_key-Keeping ko_line l

pub exec_get-Keeping : (l : Library) → Keeping (exec_get l)
unfolding exec_get
exec_get-Keeping l s =
    Keeps-if (not (length s.client.args == 2)) s.client.buf_len _ _ (kept _ s refl)
      (Keeping-bind _ _ (request-Keeping l 2 _ true []) (λ u. Keeping-return none) s)

pub exec_del-Keeping : (l : Library) → Keeping (exec_del l)
unfolding exec_del
exec_del-Keeping l s =
    Keeps-if (not (length s.client.args == 2)) s.client.buf_len _ _ (kept _ s refl) (
      Keeping-bind _ _ (request-Keeping l 3 _ false [])
        (λ u. Keeping-bind _ _ (reply-Keeping ko_line 5) (λ v. Keeping-return none)) s)

mset_loop-Keeping : (l : Library) (args : List Arg) → Keeping (mset_loop l args)
unfolding mset_loop
mset_loop-Keeping l [] s = kept tt s refl
mset_loop-Keeping l (k ∷ []) s = request-Keeping l 1 (key_of s.client k) true [] s
mset_loop-Keeping l (k ∷ v ∷ args) s =
    Keeping-bind _ _ (request-Keeping l 1 (key_of s.client k) true [])
      (λ u. mset_loop-Keeping l args) s

pub exec_mset-Keeping : (l : Library) → Keeping (exec_mset l)
unfolding exec_mset
exec_mset-Keeping l s =
    Keeping-bind _ _ (mset_loop-Keeping l (drop 1 s.client.args))
      (λ u. Keeping-bind _ _ (reply-Keeping ok_line 5) (λ v. Keeping-return none)) s

mget_loop-Keeping : (l : Library) (args : List Arg) → Keeping (mget_loop l args)
unfolding mget_loop
mget_loop-Keeping l [] s = kept tt s refl
mget_loop-Keeping l (k ∷ args) s =
    Keeping-bind _ _ (request-Keeping l 2 (key_of s.client k) true [])
      (λ u. mget_loop-Keeping l args) s

mget_header-Keeping : Keeping mget_header
unfolding mget_header client_write
mget_header-Keeping s = kept tt _ refl

pub exec_mget-Keeping : (l : Library) → Keeping (exec_mget l)
unfolding exec_mget
exec_mget-Keeping l s =
    Keeping-bind _ _ mget_header-Keeping
      (λ u.
        Keeping-bind _ _ (mget_loop-Keeping l (drop 1 s.client.args)) (λ v. Keeping-return none))
      s

pub exec_quit-Keeping : Keeping exec_quit
unfolding exec_quit
exec_quit-Keeping = Keeping-bind _ _ (reply-Keeping ok_line 5) (λ v. Keeping-return (some quit))

pub exec_flushdb-Keeping : Keeping exec_flushdb
unfolding exec_flushdb
exec_flushdb-Keeping s =
    Keeps-if (not (length s.client.args == 1)) s.client.buf_len _ _ (kept _ s refl)
      (Keeping-bind _ _ (reply-Keeping ok_line 5) (λ v. Keeping-return none) s)

write_filler-keeps : (n : ℕ) (c : Client) → (write_filler n c).buf_len ≡ c.buf_len
unfolding write_filler client_write_byte
write_filler-keeps zero c = refl
write_filler-keeps (suc n) c = write_filler-keeps n (client_write_byte c b'?')

pub exec_scan_keys-Keeping : (scan : Bool) → Keeping (exec_scan_keys scan)
unfolding exec_scan_keys
exec_scan_keys-Keeping scan s = kept none _ (write_filler-keeps filler s.client)

pub exec_keys-Keeping : Keeping exec_keys
unfolding exec_keys
exec_keys-Keeping s =
    Keeps-if (not (length s.client.args == 2)) s.client.buf_len _ _ (kept _ s refl)
      (exec_scan_keys-Keeping false s)
