-- ===== src/Order/Calls.antt =====
-- order-service/src/orders/orders.service.ts: the calls that write, one after another. What timers and
-- consumers do to the tables in between is any function of them.
use foc_app.Common.{ℕ, Option, List, [], ◌∷◌}
use foc_app.Order.Types.{OrderRow, SupplierSnapshot}
use foc_app.Order.StateMachine.Decide.{Part}
use foc_app.Order.Lifecycle.Store.{Store, Result, Error}
use foc_app.Order.Lifecycle.Patch.{Periods}
use foc_app.Order.Views.{Caller}
use foc_app.Order.Service.{Service, Request, Context, accept_order, command, resolve}
use foc_app.Order.Creation.{CreateOrderInput, create}
pub mod Retried

pub data Call : Type 0 where
  accepting : Context → (order_id expected_version : ℕ) → Call
  commanding : Context → Request → (OrderRow → Option Error) → Call
  resolving : Context → (order_id : ℕ) → Part → (expected_version : ℕ) → List ℕ → Call
  creating : Context → (id : ℕ) → Result SupplierSnapshot → (key : ℕ) → CreateOrderInput → Call
  background : (Store → Store) → Call

module _ (hash : Request → ℕ) (creation_hash : CreateOrderInput → ℕ) where
  unfoldable pub perform : Call → Service → Service
  perform (accepting x k v) s = (accept_order hash x k v s).1
  perform (commanding x r verify) s = (command hash x r verify s).1
  perform (resolving x k outcome v reason) s = (resolve hash x k outcome v reason s).1
  perform (creating x id supplier key input) s =
      (create creation_hash id x.now x.correlation supplier x.caller key input s).1
  perform (background f) s = record s { tables = f s.tables }

  abbrev pub perform_all : List Call → Service → Service
  perform_all [] s = s
  perform_all (call ∷ calls) s = perform_all calls (perform call s)
