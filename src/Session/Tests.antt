-- ===== src/Session/Tests.antt =====
-- A store that takes all, and an idle connection.
use nohost_server.Base.{◌≡◌, refl, true, [], ◌∷◌, ◌+◌, ◌*◌, some}
use nohost_server.Client.{client_new}
use nohost_server.Request.{Library, dma_allocated, submitted, dma_freed, free_req}
use nohost_server.Session.{Session, request}
use nohost_server.Session.Blocks.{sent, request-frees_own}

abbrev store : Library
store = record { alloc_tag = λ n kind. n * 10 + kind; takes = λ r. true }

abbrev idle : Session
idle = record {
  client = record (client_new (λ _. 0) (λ _. 0)) { fd = 4 };
  world = record { events = []; reads = 0; others = 0; finished = [] };
}

request-frees_own_example :
    (s' : Session) × (request store 1 9 true (5 ∷ []) idle ≡ some (tt, s'))
    × (s'.client ≡ idle.client)
    × ((free_req s'.world (sent store idle 1 9 (5 ∷ []))).events
        ≡ dma_allocated 1 1 ∷ (submitted (sent store idle 1 9 (5 ∷ [])) ∷ (dma_freed 1 1 ∷ [])))
request-frees_own_example = request-frees_own store idle true 9 (5 ∷ []) refl
