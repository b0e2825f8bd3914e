-- ===== src/Payments.antt =====
-- The payment state machine of code/hld/ledger.py.
pub mod Progress
pub mod Reconcile
use hld_lld_interview_handbo.Prelude.{
  ℕ, String, List, [], ◌∷◌, Bool, true, false, ◌||◌, ite, leb, string_dec, if◌then◌else◌,
}
use hld_lld_interview_handbo.Common.Error.{ok, err, invalid_state}
use hld_lld_interview_handbo.Common.Action.{Action}
use hld_lld_interview_handbo.Common.Money.{Money}

pub data PaymentState : Type 0 where
  created authorized captured settled failed refunded : PaymentState

-- `_RANK`
unfoldable pub rank : PaymentState → ℕ
rank created = 0
rank authorized = 1
rank captured = 2
rank failed = 2
rank settled = 3
rank refunded = 4

-- `target in _ALLOWED[state]`
unfoldable pub allowed : PaymentState → PaymentState → Bool
allowed created authorized = true
allowed created failed = true
allowed authorized captured = true
allowed authorized failed = true
allowed captured settled = true
allowed captured refunded = true
allowed settled refunded = true
allowed _ _ = false

pub record Payment : Type 0 where
  pub payment_id : String
  pub amount : Money
  pub state : PaymentState
  pub applied_events : List String

-- `event_id in payment.applied_events`; the set is the list of what was added to it.
unfoldable pub seen : String → List String → Bool
seen event_id [] = false
seen event_id (e ∷ events) = ite (string_dec e event_id) true (seen event_id events)

-- `PaymentStateMachine.apply`
unfoldable pub apply : String → PaymentState → Action Payment Bool
apply event_id target p =
    if seen event_id p.applied_events
    then (ok false, p)
    else if leb (rank target) (rank p.state)
    then (ok false, record p { applied_events = event_id ∷ p.applied_events })
    else if allowed p.state target
    then (ok true, record p { applied_events = event_id ∷ p.applied_events; state = target })
    else (err invalid_state, p)

-- A webhook: the provider's event identifier and the state that it announces.
abbrev pub Webhook : Type 0
Webhook = String × PaymentState

-- The payment after the webhooks, in the order of their arrival.
unfoldable pub deliver : List Webhook → Payment → Payment
deliver [] p = p
deliver ((event_id, target) ∷ rest) p = deliver rest (apply event_id target p).1
