-- ===== src/Tests/PaymentRuns.antt =====
-- One payment and the webhooks of its provider.
use hld_lld_interview_handbo.Prelude.{◌≡◌, ◌≢◌, ◌⊎◌, ◌↔◌, ◌≤◌, ◌<◌, List, [], ◌∷◌, true, false}
use hld_lld_interview_handbo.Prelude.Int.{pos}
use hld_lld_interview_handbo.Common.Error.{ok, err, invalid_state}
use hld_lld_interview_handbo.Payments.{
  PaymentState, authorized, captured, rank, allowed, seen, Payment, apply, deliver, Webhook,
}
use hld_lld_interview_handbo.Payments.Progress.{Reaches, apply_exactly, deliver_forward}

abbrev payment : PaymentState → Payment
payment state = record {
  payment_id = "pay-1";
  amount = record { cents = pos 2500; currency = "USD" };
  state = state;
  applied_events = [];
}

-- The capture is announced twice, and the authorization after it.
abbrev hooks : List Webhook
hooks = ("evt-2", captured) ∷ ("evt-2", captured) ∷ ("evt-1", authorized) ∷ []

apply_exactly_example :
    (((apply "evt-2" captured (payment authorized)).0 ≡ ok true)
      ↔ ((seen "evt-2" [] ≡ false) × (allowed authorized captured ≡ true)))
    × ((((apply "evt-2" captured (payment authorized)).0 ≡ ok true)
          × ((apply "evt-2" captured (payment authorized)).1.state ≡ captured))
        ⊎ (((apply "evt-2" captured (payment authorized)).0 ≢ ok true)
            × ((apply "evt-2" captured (payment authorized)).1.state ≡ authorized)))
    × (((apply "evt-2" captured (payment authorized)).0 ≡ err invalid_state) ↔ (
        (seen "evt-2" [] ≡ false)
        × (rank authorized < rank captured)
        × (allowed authorized captured ≡ false)))
apply_exactly_example = apply_exactly "evt-2" captured (payment authorized)

deliver_forward_example :
    Reaches authorized (deliver hooks (payment authorized)).state
    × (rank authorized ≤ rank (deliver hooks (payment authorized)).state)
deliver_forward_example = deliver_forward hooks (payment authorized)
