-- ===== src/Session/Blocks.antt =====
-- The block of memory of a request, from the command that makes it to free_req.
use nohost_server.Base.{
  ℕ, ◌≡◌, refl, Bool, true, false, List, [], ◌∷◌, ◌++◌, Option, none, some, if◌then◌else◌, add64,
  length, append_assoc, ◌∙◌,
}
use nohost_server.Request.{
  Request, Event, dma_allocated, dma_freed, submitted, Library, World, alloc_dma, alloc_req,
  free_dma, free_req, make_req,
}
use nohost_server.Session.{Session, request}

-- The request that the store gets: its key is one more than the command's.
abbrev pub sent : Library → Session → ℕ → ℕ → List ℕ → Request
sent l s kind key value = record {
  client = s.client.fd;
  tag = l.alloc_tag (length s.world.events) kind;
  kind = kind;
  key = add64 key 1;
  value = value;
}

-- The kinds of a write and of a read.
abbrev pub kind_of : Bool → ℕ
kind_of write = if write then 1 else 2

abbrev in_session : Session → Option World → Option (Unit {0} × Session)
in_session s o = elim o [ none ↦ none | some w ↦ some (tt, record s { world = w }) ]

taken :
    (s : Session) (w : World) (b : Bool)
    → b ≡ true
    → in_session s (if b then some w else none) ≡ some (tt, record s { world = w })
taken s w true e = refl
taken s w false e = cc

-- The world after a read or a write, of the connection `fd`, that the store takes.
abbrev pub ask : Library → ℕ → World → Bool → ℕ → List ℕ → World
ask l fd w write key value =
    let tag = l.alloc_tag (length w.events) (kind_of write) in
    let r : Request = record {
      client = fd;
      tag = tag;
      kind = kind_of write;
      key = add64 key 1;
      value = value;
    } in
    record {
      events = w.events ++ (dma_allocated (kind_of write) tag ∷ (submitted r ∷ []));
      reads = if write then w.reads else add64 w.reads 1;
      others = if write then add64 w.others 1 else w.others;
      finished = w.finished;
    }

abbrev pub asked : Library → Session → Bool → ℕ → List ℕ → World
asked l s write key value = ask l s.client.fd s.world write key value

with_events :
    (s : Session) (r o : ℕ) (es fs : List Event)
    → es ≡ fs
    → in_session s
        (some (record { events = es; reads = r; others = o; finished = s.world.finished }))
      ≡ some (
        tt,
        record s {
          world = record { events = fs; reads = r; others = o; finished = s.world.finished };
        },
      )
with_events s r o es fs e = rw e refl

pub request-run :
    (l : Library) (s : Session) (write : Bool) (key : ℕ) (value : List ℕ)
    → l.takes (sent l s (kind_of write) key value) ≡ true
    → request l (kind_of write) key true value s
      ≡ some (tt, record s { world = asked l s write key value })
unfolding request alloc_dma make_req alloc_req
request-run l s true key value takes =
    taken s _ (l.takes (sent l s 1 key value)) takes
    ∙ with_events s _ _ _ _ (append_assoc s.world.events _ _)
request-run l s false key value takes =
    taken s _ (l.takes (sent l s 2 key value)) takes
    ∙ with_events s _ _ _ _ (append_assoc s.world.events _ _)

free_own :
    (s : Session) (l : Library) (write : Bool) (key : ℕ) (value : List ℕ)
    → free_req (asked l s write key value) (sent l s (kind_of write) key value)
      ≡ free_dma (asked l s write key value) (sent l s (kind_of write) key value)
unfolding free_req
free_own s l true key value = refl
free_own s l false key value = refl

-- A read or a write that the store takes: one block is allocated, the request is submitted with its
-- tag and with the key raised by one, and free_req of the request that comes back frees that block
-- as a block of the kind it was allocated as. Nothing else is asked of the libraries, and the
-- connection is as before.
pub request-frees_own :
    (l : Library) (s : Session) (write : Bool) (key : ℕ) (value : List ℕ)
    → l.takes (sent l s (kind_of write) key value) ≡ true
    → (s' : Session) × (request l (kind_of write) key true value s ≡ some (tt, s'))
      × (s'.client ≡ s.client)
      × ((free_req s'.world (sent l s (kind_of write) key value)).events
          ≡ s.world.events
            ++ (dma_allocated (kind_of write) (l.alloc_tag (length s.world.events) (kind_of write))
                ∷ (submitted (sent l s (kind_of write) key value)
                    ∷ (dma_freed
                          (kind_of write)
                          (l.alloc_tag (length s.world.events) (kind_of write))
                        ∷ []))))
unfolding free_dma
request-frees_own l s write key value takes = (
  record s { world = asked l s write key value },
  request-run l s write key value takes,
  refl,
  rw (free_own s l write key value) (append_assoc s.world.events _ _),
)

-- A deletion that the store takes has no block allocated, and free_req of the request that comes back
-- frees a block all the same: tag 0, as a block of a read.
pub request-frees_none :
    (l : Library) (s : Session) (key : ℕ)
    → l.takes (record (sent l s 3 key []) { tag = 0 }) ≡ true
    → (s' : Session) × (request l 3 key false [] s ≡ some (tt, s'))
      × ((free_req s'.world (record (sent l s 3 key []) { tag = 0 })).events
          ≡ s.world.events
            ++ (submitted (record (sent l s 3 key []) { tag = 0 }) ∷ (dma_freed 2 0 ∷ [])))
unfolding request make_req free_req free_dma alloc_req
request-frees_none l s key takes = (
  _,
  taken s _ (l.takes (record (sent l s 3 key []) { tag = 0 })) takes,
  append_assoc s.world.events _ _,
)
