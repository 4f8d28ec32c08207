-- ===== src/Order/Calls/Retried.antt =====
-- order-service/src/orders/orders.service.ts: that a key's command and a key's errand happen once.
use foc_app.Common.{
  ℕ, ◌≡◌, Bool, true, Option, none, some, List, [], ◌∷◌, ◌++◌, refl, arith, ◌==◌, if◌then◌else◌,
}
use foc_app.Order.Types.{OrderRow, SupplierSnapshot, idempotency_key_reused}
use foc_app.Order.Lifecycle.Store.{Result, ok, err, find_order, missing_order}
use foc_app.Order.Views.{Caller, OrderView, project_order}
use foc_app.Order.Service.{
  KeyRow, Service, Request, Attempt, find_key, raise, found_view, once, with_command_key, key_row,
  accept_order, command, resolve, resolve_request, try_command, is_referred,
}
use foc_app.Order.Service.Outcomes.{IsFresh}
use foc_app.Order.Creation.{
  CreateOrderInput, creation_key, create_pending, insert_order, created_view, create,
}
use foc_app.Order.Calls.{
  Call, accepting, commanding, resolving, creating, background, perform, perform_all,
}

-- The rows of a table of keys that another keeps.
abbrev Keeps : List KeyRow → List KeyRow → Type 0
Keeps rows rows' =
    (caller key : ℕ) (row : KeyRow)
    → find_key caller key rows ≡ some row
    → find_key caller key rows' ≡ some row

find_key-append :
    (caller key : ℕ) (rows more : List KeyRow) {row : KeyRow}
    → find_key caller key rows ≡ some row
    → find_key caller key (rows ++ more) ≡ some row
find_key-append caller key [] more h = cc
find_key-append caller key (r ∷ rows) more {row} h =
    ground (arith, find_key-append caller key rows more {row = row})

find_key-new :
    (caller key : ℕ) (rows : List KeyRow) (row : KeyRow)
    → find_key caller key rows ≡ none
    → row.caller_id ≡ caller
    → row.idempotency_key ≡ key
    → find_key caller key (rows ++ (row ∷ [])) ≡ some row
find_key-new caller key [] row h a b = ground arith
find_key-new caller key (r ∷ rows) row h a b = ground (arith, find_key-new caller key rows row)

-- What a call keeps of the keys.
abbrev KeepsKeys : Service → Service → Type 0
KeepsKeys s s' = Keeps s.creation_keys s'.creation_keys × Keeps s.command_keys s'.command_keys

once-KeepsKeys :
    (hash : Request → ℕ) (now : ℕ) (c : Caller) (key : Option ℕ) (r : Request) (run : Attempt)
    (s : Service)
    → KeepsKeys s (once hash now c key r run s).1
unfolding once with_command_key
once-KeepsKeys hash now c none r run s =
    (λ caller k row h. ground (arith, h), λ caller k row h. ground (arith, h))
once-KeepsKeys hash now c (some key) r run s = (
  λ caller k row h. ground (arith, h),
  λ caller k row h.
      ground (
        arith,
        h,
        find_key-append caller k s.command_keys (key_row hash c key r ∷ []) {row = row} h,
      ),
)

create-KeepsKeys :
    (hash : CreateOrderInput → ℕ) (id now correlation : ℕ) (supplier : Result SupplierSnapshot)
    (c : Caller) (key : ℕ) (input : CreateOrderInput) (s : Service)
    → KeepsKeys s (create hash id now correlation supplier c key input s).1
unfolding create create_pending insert_order
create-KeepsKeys hash id now correlation supplier c key input s = (
  λ caller k row h. ground (
    arith,
    h,
    find_key-append caller k s.creation_keys (creation_key hash id c key input ∷ []) {row = row} h,
  ),
  λ caller k row h. ground (arith, h),
)

module _ (hash : Request → ℕ) (creation_hash : CreateOrderInput → ℕ) where
  perform-KeepsKeys : (call : Call) (s : Service) → KeepsKeys s (perform hash creation_hash call s)
  unfolding perform accept_order command resolve
  perform-KeepsKeys (accepting x k v) s = once-KeepsKeys _ _ _ _ _ _ s
  perform-KeepsKeys (commanding x r verify) s = once-KeepsKeys _ _ _ _ _ _ s
  perform-KeepsKeys (resolving x k outcome v reason) s =
      let (creation, commands) =
        once-KeepsKeys hash x.now x.caller x.key (resolve_request k outcome v reason)
          (try_command x (resolve_request k outcome v reason) (is_referred x.caller)) s in
      (
        λ caller key row h. ground (arith, h, creation caller key row h),
        λ caller key row h. ground (arith, h, commands caller key row h),
      )
  perform-KeepsKeys (creating x id supplier key input) s =
      create-KeepsKeys creation_hash id x.now x.correlation supplier x.caller key input s
  perform-KeepsKeys (background f) s = (λ caller k row h. h, λ caller k row h. h)

  perform_all-KeepsKeys :
      (calls : List Call) (s : Service) → KeepsKeys s (perform_all hash creation_hash calls s)
  perform_all-KeepsKeys [] s = (λ caller k row h. h, λ caller k row h. h)
  perform_all-KeepsKeys (call ∷ calls) s =
      let first = perform-KeepsKeys call s in
      let rest = perform_all-KeepsKeys calls (perform hash creation_hash call s) in
      (
        λ caller k row h. rest.0 caller k row (first.0 caller k row h),
        λ caller k row h. rest.1 caller k row (first.1 caller k row h),
      )

-- The answer to a retry of a command on errand `k`: the errand as the caller may see it now.
abbrev pub view_now : (now : ℕ) → Caller → Option OrderRow → Result OrderView
view_now now c none = err missing_order
view_now now c (some o) = found_view (project_order now o c)

module _ (hash : Request → ℕ) (now : ℕ) (c : Caller) (key : ℕ) (r r' : Request)
    (run : Attempt) where
  once-records :
      (s s' : Service) (v : OrderView)
      → IsFresh c (some key) s
      → once hash now c (some key) r run s ≡ (ok v, s')
      → find_key c.user_id key s'.command_keys ≡ some (key_row hash c key r)
  unfolding once with_command_key
  once-records s s' v fresh answered = ground (
    arith,
    fresh,
    answered,
    find_key-new c.user_id key s.command_keys (key_row hash c key r) fresh refl refl,
  )

  once-replays :
      (s : Service)
      → find_key c.user_id key s.command_keys ≡ some (key_row hash c key r)
      → once hash now c (some key) r' run s ≡ (
        if hash r' == hash r
            then view_now now c (find_order r.order_id s.tables.orders)
            else raise idempotency_key_reused,
        s,
      )
  unfolding once with_command_key
  once-replays s kept = ground (arith, kept)

module _ (hash : Request → ℕ) (creation_hash : CreateOrderInput → ℕ) (now later : ℕ) (c : Caller)
    (key : ℕ) (r r' : Request) (run run' : Attempt) (s s' : Service) (v : OrderView)
    (calls : List Call) where
  -- A command that was answered under a new key is not run again: whatever calls are made and
  -- whatever happens to the tables in between, the key with the same request answers with the errand
  -- as the caller may see it now, and with another request is refused, and either changes nothing.
  pub retried :
      IsFresh c (some key) s
      → once hash now c (some key) r run s ≡ (ok v, s')
      → once hash later c (some key) r' run' (perform_all hash creation_hash calls s') ≡ (
        if hash r' == hash r
            then view_now later c
                (find_order r.order_id (perform_all hash creation_hash calls s').tables.orders)
            else raise idempotency_key_reused,
        perform_all hash creation_hash calls s',
      )
  retried fresh answered =
      once-replays hash later c key r r' run' (perform_all hash creation_hash calls s') (
        (perform_all-KeepsKeys hash creation_hash calls s').1 c.user_id key (key_row hash c key r)
          (once-records hash now c key r r run s s' v fresh answered))

module _ (hash : CreateOrderInput → ℕ) (c : Caller) (key : ℕ) (input : CreateOrderInput) where
  create-records :
      (id now correlation : ℕ) (supplier : Result SupplierSnapshot) (s s' : Service)
      (reply : OrderView × Bool)
      → find_key c.user_id key s.creation_keys ≡ none
      → create hash id now correlation supplier c key input s ≡ (ok reply, s')
      → find_key c.user_id key s'.creation_keys ≡ some (creation_key hash id c key input)
  unfolding create create_pending insert_order
  create-records id now correlation supplier s s' reply fresh answered = ground (
    arith,
    fresh,
    answered,
    find_key-new c.user_id key s.creation_keys (creation_key hash id c key input) fresh refl refl,
  )

  create-replays :
      (id later correlation : ℕ) (supplier : Result SupplierSnapshot) (input' : CreateOrderInput)
      (kept_id : ℕ) (s : Service) (o : OrderRow)
      → find_key c.user_id key s.creation_keys ≡ some (creation_key hash kept_id c key input)
      → find_order kept_id s.tables.orders ≡ some o
      → create hash id later correlation supplier c key input' s ≡ (
        if hash input == hash input'
            then created_view later c o true
            else raise idempotency_key_reused,
        s,
      )
  unfolding create
  create-replays id later correlation supplier input' kept_id s o kept there =
      ground (arith, kept, there)

  -- An errand that was posted under a new key is not posted again: whatever calls are made and whatever
  -- happens to the tables in between, as long as the errand is there, the key with the same input
  -- answers with that errand as its requester may see it now, and with another input is refused, and
  -- either changes nothing, whatever the supplier service answers.
  pub posted_once :
      (command_hash : Request → ℕ) (id now correlation : ℕ) (supplier : Result SupplierSnapshot)
      (s s' : Service) (reply : OrderView × Bool) (calls : List Call)
      → find_key c.user_id key s.creation_keys ≡ none
      → create hash id now correlation supplier c key input s ≡ (ok reply, s')
      → (id' later correlation' : ℕ) (supplier' : Result SupplierSnapshot)
        (input' : CreateOrderInput) (o : OrderRow)
      → find_order id (perform_all command_hash hash calls s').tables.orders ≡ some o
      → create hash id' later correlation' supplier' c key input'
          (perform_all command_hash hash calls s')
        ≡ (
          if hash input == hash input'
              then created_view later c o true
              else raise idempotency_key_reused,
          perform_all command_hash hash calls s',
        )
  posted_once command_hash id now correlation supplier s s' reply calls fresh answered id' later
        correlation' supplier' input' o there =
      create-replays id' later correlation' supplier' input' id
        (perform_all command_hash hash calls s') o
        ((perform_all-KeepsKeys command_hash hash calls s').0 c.user_id key
          (creation_key hash id c key input)
          (create-records id now correlation supplier s s' reply fresh answered))
        there
