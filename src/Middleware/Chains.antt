-- ===== src/Middleware/Chains.antt =====
-- server/internal/httpx/middleware.go: what a chain makes of any handler.
use bumshi.Common.{true, false, List, ◌∷◌, ◌≡◌, inl, inr, refl, Bytes, Bool-cases}
use bumshi.Headers.{get}
use bumshi.Middleware.{
  Request, Act, set_header, Handler, Middleware, chain, request_id_header, valid_request_id,
  settled_id, request_id, recoverer,
}

recoverer_calm : (next : Handler) (r : Request) → (recoverer next r).panics ≡ false
unfolding recoverer
recoverer_calm next r = elim (Bool-cases (next r).panics) [ inl e ↦ rw e refl | inr e ↦ rw e refl ]

valid-settled_id :
    (fresh given : Bytes)
    → valid_request_id fresh ≡ true
    → valid_request_id (settled_id fresh given) ≡ true
unfolding settled_id
valid-settled_id fresh given h = elim (Bool-cases (valid_request_id given)) [
  | inl e ↦ rw e e
  | inr e ↦ rw e h
]

-- Behind the request's id and the recoverer, as the service and the panel chain them, no handler panics,
-- whatever stands further in; and the first thing that is done is to stage an id that is well formed,
-- also when the client's is not.
pub chain-recoverer :
    (h : Handler) (mws : List Middleware) (fresh : Bytes) (r : Request)
    → valid_request_id fresh ≡ true
    → ((chain h (request_id fresh ∷ recoverer ∷ mws) r).panics ≡ false)
      × ((id : Bytes) × (rest : List Act) × (valid_request_id id ≡ true)
          × ((chain h (request_id fresh ∷ recoverer ∷ mws) r).acts
              ≡ set_header request_id_header id ∷ rest))
unfolding chain request_id
chain-recoverer h mws fresh r ok =
    let id : Bytes = settled_id fresh (get r.header request_id_header) in
    let inner : Request = record r { request_id = id } in
    (
      recoverer_calm (chain h mws) inner,
      (
        id,
        (recoverer (chain h mws) inner).acts,
        valid-settled_id fresh (get r.header request_id_header) ok,
        refl,
      ),
    )
