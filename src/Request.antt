-- ===== src/Request.antt =====
-- request.cc and request.h: a request to the key-value store, built with the flags of the Makefile
-- (LSMTREE, ENABLE_LIBFTL, SEQ). libmemio and the store are not part of the sources: what they
-- answer is the parameter `Library`, what they are asked is recorded in `events`.
-- The measuring of time and the messages on the console are left out.
use nohost_server.Base.{
  ℕ, Bool, not, List, [], ◌∷◌, ◌++◌, Option, none, some, leb, ltb, ◌==◌, if◌then◌else◌, add64,
  length,
}

-- `req_t` with what it points to; `client` tells the connection, `tag` is `dmaTag`, `value` holds
-- the bytes that were copied to the block of memory that memio_alloc_dma gave.
pub record Request : Type 0 where
  pub client : ℕ
  pub tag : ℕ
  pub kind : ℕ
  pub key : ℕ
  pub value : List ℕ

-- memio_alloc_dma(type, …), memio_free_dma(type, tag) and lr_make_req(req).
pub data Event : Type 0 where
  dma_allocated : ℕ → ℕ → Event
  dma_freed : ℕ → ℕ → Event
  submitted : Request → Event

-- The tag that an allocation returns after so many events, and whether the store takes a request
-- (lr_make_req does not return -1).
pub record Library : Type 0 where
  pub alloc_tag : ℕ → ℕ → ℕ
  pub takes : Request → Bool

-- The global state: what was asked of the libraries, newest last, the counters `key1` (reads) and
-- `key2` (others) of make_req, and the queue of requests that are done, oldest first.
pub record World : Type 0 where
  pub events : List Event
  pub reads : ℕ
  pub others : ℕ
  pub finished : List Request

abbrev pub record_event : World → Event → World
record_event w e = record w { events = w.events ++ e ∷ [] }

unfoldable pub alloc_dma : Library → World → Request → World × Request
alloc_dma l w r =
    let tag = l.alloc_tag (length w.events) r.kind in
    (record_event w (dma_allocated r.kind tag), record r { tag = tag })

unfoldable pub free_dma : World → Request → World
free_dma w r = record_event w (dma_freed r.kind r.tag)

-- calloc zeroes all.
unfoldable pub alloc_req : Request
alloc_req = record { client = 0; tag = 0; kind = 0; key = 0; value = [] }

-- What is not a write is freed as a read.
unfoldable pub free_req : World → Request → World
unfolding free_dma
free_req w r =
    let r' = if not (r.kind == 1) then record r { kind = 2 } else r in
    if leb r'.kind 2 then free_dma w r' else w

-- `none`: the process exits. The counters are kept under a mutex.
unfoldable pub make_req : Library → World → Request → Option World
make_req l w r =
    let w1 =
      if r.kind == 2
      then record w { reads = add64 w.reads 1 }
      else record w { others = add64 w.others 1 } in
    let r1 = record r { key = add64 r.key 1 } in
    if l.takes r1 then some (record_event w1 (submitted r1)) else none

-- The queue of 4096 places that the request is put in; `none`: it is full, and end_req tries again.
abbrev pub queue_size : ℕ
queue_size = 4096

unfoldable pub end_req : World → Request → Option World
unfolding free_req
end_req w r =
    if r.kind == 1
    then some (free_req w r)
    else if ltb (length w.finished) queue_size
    then some (record w { finished = w.finished ++ r ∷ [] })
    else none
