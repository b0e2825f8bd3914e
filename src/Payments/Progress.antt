-- ===== src/Payments/Progress.antt =====
-- Webhooks that arrive late, twice or out of order never move a payment backwards.
use hld_lld_interview_handbo.Prelude.{
  String, ◌≡◌, ◌≢◌, ◌≤◌, ◌<◌, ◌⊎◌, ◌↔◌, ◌∙◌, inl, inr, refl, List, [], ◌∷◌, Bool, true, false,
  arith,
}
use hld_lld_interview_handbo.Common.Error.{ok, err, invalid_state}
use hld_lld_interview_handbo.Payments.{
  Payment, PaymentState, failed, refunded, rank, allowed, seen, apply, Webhook, deliver,
}

-- A payment's state moves only along the allowed edges.
pub data Reaches : PaymentState → PaymentState → Type 0 where
  stays : (s : PaymentState) → Reaches s s
  moves : {s t : PaymentState} (u : PaymentState) → allowed t u ≡ true → Reaches s t → Reaches s u

allowed-rank : (s t : PaymentState) → allowed s t ≡ true → rank s < rank t
unfolding allowed rank
allowed-rank s t h = ground arith

pub Reaches-rank : {s t : PaymentState} → Reaches s t → rank s ≤ rank t
Reaches-rank (stays s) = omega arith
Reaches-rank (moves {t = t} u h r) = omega (arith, Reaches-rank r, allowed-rank t u h)

-- The call returns true exactly when the event is new, ahead of the payment and allowed, and only
-- then the state changes, to the announced one; it raises exactly when a new event is ahead and
-- not allowed, and then nothing changes.
pub apply_exactly :
    (event_id : String) (target : PaymentState) (p : Payment)
    → (((apply event_id target p).0 ≡ ok true)
        ↔ ((seen event_id p.applied_events ≡ false) × (allowed p.state target ≡ true)))
      × ((((apply event_id target p).0 ≡ ok true) × ((apply event_id target p).1.state ≡ target))
          ⊎ (((apply event_id target p).0 ≢ ok true)
              × ((apply event_id target p).1.state ≡ p.state)))
      × (((apply event_id target p).0 ≡ err invalid_state) ↔ (
          (seen event_id p.applied_events ≡ false)
          × (rank p.state < rank target)
          × (allowed p.state target ≡ false)))
unfolding apply
apply_exactly event_id target p = ground (arith, allowed-rank p.state target)

state-apply :
    (event_id : String) (target : PaymentState) (p : Payment)
    → ((apply event_id target p).1.state ≡ p.state)
      ⊎ ((allowed p.state target ≡ true) × ((apply event_id target p).1.state ≡ target))
unfolding apply
state-apply event_id target p = ground arith

step-Reaches :
    (s : PaymentState) (event_id : String) (target : PaymentState) (p : Payment)
    → Reaches s p.state
    → Reaches s (apply event_id target p).1.state
step-Reaches s event_id target p h = elim (state-apply event_id target p) [
  | inl same ↦ rw same h
  | inr (edge, there) ↦ rw there (moves target edge h)
]

deliver-Reaches :
    (s : PaymentState) (hooks : List Webhook) (p : Payment)
    → Reaches s p.state
    → Reaches s (deliver hooks p).state
unfolding deliver
deliver-Reaches s [] p h = h
deliver-Reaches s ((event_id, target) ∷ rest) p h =
    deliver-Reaches s rest (apply event_id target p).1 (step-Reaches s event_id target p h)

-- Whatever webhooks arrive, in any order and any number of times, the payment moves along allowed
-- edges only, and its rank never falls.
pub deliver_forward :
    (hooks : List Webhook) (p : Payment)
    → Reaches p.state (deliver hooks p).state × (rank p.state ≤ rank (deliver hooks p).state)
deliver_forward hooks p =
    let r = deliver-Reaches p.state hooks p (stays p.state) in (r, Reaches-rank r)

terminal_step :
    (event_id : String) (target : PaymentState) (p : Payment)
    → (p.state ≡ failed) ⊎ (p.state ≡ refunded)
    → (apply event_id target p).1.state ≡ p.state
unfolding apply allowed
terminal_step event_id target p h = ground arith

apply-seen_self :
    (event_id : String) (target : PaymentState) (p : Payment) (b : Bool)
    → (apply event_id target p).0 ≡ ok b
    → seen event_id (apply event_id target p).1.applied_events ≡ true
unfolding apply seen
apply-seen_self event_id target p b h = ground arith

apply-seen :
    (event_id other : String) (target : PaymentState) (p : Payment)
    → seen event_id p.applied_events ≡ true
    → seen event_id (apply other target p).1.applied_events ≡ true
unfolding apply seen
apply-seen event_id other target p h = ground arith

deliver-seen :
    (event_id : String) (hooks : List Webhook) (p : Payment)
    → seen event_id p.applied_events ≡ true
    → seen event_id (deliver hooks p).applied_events ≡ true
unfolding deliver
deliver-seen event_id [] p h = h
deliver-seen event_id ((other, target) ∷ rest) p h =
    deliver-seen event_id rest (apply other target p).1 (apply-seen event_id other target p h)

-- A failed or refunded payment stays as it is, whatever arrives.
pub terminal_stays :
    (hooks : List Webhook) (p : Payment)
    → (p.state ≡ failed) ⊎ (p.state ≡ refunded)
    → (deliver hooks p).state ≡ p.state
unfolding deliver
terminal_stays [] p h = refl
terminal_stays ((event_id, target) ∷ rest) p h =
    let same = terminal_step event_id target p h in
    terminal_stays rest (apply event_id target p).1 (rw same h) ∙ same

-- A webhook that has been taken in does nothing when it arrives again, also after others.
pub redelivery_ignored :
    (event_id : String) (target : PaymentState) (p : Payment) (b : Bool) (between : List Webhook)
    (again : PaymentState)
    → (apply event_id target p).0 ≡ ok b
    → let p' = deliver between (apply event_id target p).1 in
      apply event_id again p' ≡ (ok false, p')
unfolding apply
redelivery_ignored event_id target p b between again h =
    let kept =
      deliver-seen event_id between (apply event_id target p).1
        (apply-seen_self event_id target p b h) in
    rw (kept, apply)
