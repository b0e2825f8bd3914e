-- ===== src/Inventory/Settled.antt =====
-- A reservation that is settled stays settled.
use hld_lld_interview_handbo.Prelude.{Option-cases, ◌≡◌, inl, inr, arith}
use hld_lld_interview_handbo.Dict.{get}
use hld_lld_interview_handbo.Dict.Laws.{get-put}
use hld_lld_interview_handbo.Common.Error.{ok, err, invalid_state}
use hld_lld_interview_handbo.Common.Ids.{Identifier}
use hld_lld_interview_handbo.Inventory.{
  InventoryService, Reservation, identifier_key, released, settle, commit, commit_found, release,
  release_found,
}

-- Once a commit has returned, a second one returns the same reservation, a release raises, and
-- neither changes anything.
pub commit-settled :
    (id : Identifier) (s : InventoryService) (r : Reservation)
    → (commit id s).0 ≡ ok r
    → (commit id (commit id s).1 ≡ (ok r, (commit id s).1))
      × (release id (commit id s).1 ≡ (err invalid_state, (commit id s).1))
unfolding commit commit_found release release_found settle
commit-settled id s r h = ground (arith, get-put s.reservations id r id)

-- Once a release has returned, a second one returns and changes nothing, and a commit raises and
-- changes nothing, whether the reservation had been held, released or had expired.
pub release-settled :
    (id : Identifier) (s : InventoryService)
    → (release id s).0 ≡ ok tt
    → (release id (release id s).1 ≡ (ok tt, (release id s).1))
      × (commit id (release id s).1 ≡ (err invalid_state, (release id s).1))
unfolding commit commit_found release release_found settle
release-settled id s h = elim (Option-cases (get s.reservations id)) [
  | inl e ↦ ground (arith, e)
  | inr (r, e) ↦ ground (arith, e, get-put s.reservations id (record r { state = released }) id)
]
