-- ===== src/Inventory/Settling.antt =====
-- Committing, releasing and expiring reservations keeps the stock covered.
use hld_lld_interview_handbo.Prelude.{
  ◌≡◌, ◌⊎◌, inl, inr, refl, arith, some, List, [], ◌∷◌, Bool, true, false, ◌&&◌, ite, All,
  Option-cases, if◌then◌else◌,
}
use hld_lld_interview_handbo.Prelude.Int.{ℤ, leb_ℤ}
use hld_lld_interview_handbo.Dict.{Dict, string_key, get, put}
use hld_lld_interview_handbo.Common.Error.{Result-cases}
use hld_lld_interview_handbo.Common.Ids.{Identifier}
use hld_lld_interview_handbo.Inventory.{
  is_held, StockItem, Reservation, ReservationState, held, committed, released, expired,
  InventoryService, identifier_key, change_items, returned, sold, settle, lapsed, expire_all,
  reclaim, commit_found, commit, release_found, release,
}
use hld_lld_interview_handbo.Inventory.Reserve.{all_positive}
use hld_lld_interview_handbo.Inventory.Coverage.{
  IsCovered, change_items-returned, change_items-sold,
}

-- Every reservation is of positive quantities.
abbrev pub ArePositive : List (Identifier × Reservation) → Type 0
ArePositive = All (λ e. all_positive e.1.lines ≡ true)

both-ite : {A C : Type 0} (P : C → Type 0) (d : Dec A) (x y : C) → P x → P y → P (ite d x y)
both-ite P (yes _) x y h k = h
both-ite P (no _) x y h k = k

both-if : {C : Type 0} (P : C → Type 0) (b : Bool) (x y : C) → P x → P y → P (if b then x else y)
both-if P true x y h k = h
both-if P false x y h k = k

pub put-ArePositive :
    (rs : Dict Identifier Reservation) (id : Identifier) (r : Reservation)
    → ArePositive rs
    → all_positive r.lines ≡ true
    → ArePositive (put rs id r)
unfolding put
put-ArePositive [] id r h k = (k, tt)
put-ArePositive ((j, q) ∷ rs) id r h k =
    both-ite ArePositive (identifier_key.dec j id) ((j, r) ∷ rs) ((j, q) ∷ put rs id r) (k, h.1)
      (h.0, put-ArePositive rs id r h.1 k)

get-ArePositive :
    (rs : Dict Identifier Reservation) (id : Identifier) (r : Reservation)
    → ArePositive rs
    → get rs id ≡ some r
    → all_positive r.lines ≡ true
unfolding get
get-ArePositive [] id r h e = absurd (ground (arith, e))
get-ArePositive ((j, q) ∷ rs) id r h e = ground (arith, h, e, get-ArePositive rs id r)

lapsed-ArePositive :
    (now : ℤ) (rs : Dict Identifier Reservation) → ArePositive rs → ArePositive (lapsed now rs)
unfolding lapsed
lapsed-ArePositive now [] h = tt
lapsed-ArePositive now ((id, r) ∷ rs) h =
    let rest = lapsed-ArePositive now rs h.1 in
    both-if ArePositive (is_held r && leb_ℤ r.expires_at now) ((id, r) ∷ lapsed now rs)
      (lapsed now rs) (h.0, rest) rest

-- Stock that is covered, and reservations of positive quantities.
abbrev pub IsSound : InventoryService → Type 0
IsSound s = IsCovered s.stock × ArePositive s.reservations

settle-IsSound :
    (f : ℤ → StockItem → StockItem) (id : Identifier) (r : Reservation) (state : ReservationState)
    (s : InventoryService)
    → IsCovered (change_items f r.lines s.stock).1
    → ArePositive s.reservations
    → all_positive r.lines ≡ true
    → IsSound (settle f id r state s).1
unfolding settle
settle-IsSound f id r state s covered h k = elim (Result-cases (change_items f r.lines s.stock).0) [
  | inr (x, e) ↦ rw (e, settle) (covered, h)
  | inl (u, e) ↦
      rw (e, settle) (covered, put-ArePositive s.reservations id (record r { state = state }) h k)
]

give_back-IsSound :
    (id : Identifier) (r : Reservation) (state : ReservationState) (s : InventoryService)
    → IsSound s
    → all_positive r.lines ≡ true
    → IsSound (settle returned id r state s).1
give_back-IsSound id r state s h k =
    settle-IsSound returned id r state s (change_items-returned r.lines s.stock h.0 k) h.1 k

expire_all-IsSound :
    (stale : List (Identifier × Reservation)) (s : InventoryService)
    → IsSound s
    → ArePositive stale
    → IsSound (expire_all stale s).1
unfolding expire_all
expire_all-IsSound [] s h k = h
expire_all-IsSound ((id, r) ∷ stale) s h k =
    let once = give_back-IsSound id r expired s h k.0 in
    elim (Result-cases (settle returned id r expired s).0) [
      | inr (x, e) ↦ rw (e, expire_all) once
      | inl (u, e) ↦
          rw (e, expire_all) (expire_all-IsSound stale (settle returned id r expired s).1 once k.1)
    ]

pub reclaim-IsSound : (s : InventoryService) → IsSound s → IsSound (reclaim s).1
unfolding reclaim
reclaim-IsSound s h =
    let stale = lapsed s.clock.now s.reservations in
    let swept = expire_all-IsSound stale s h (lapsed-ArePositive s.clock.now s.reservations h.1) in
    elim (Result-cases (expire_all stale s).0) [
      | inr (x, e) ↦ rw (e, reclaim) swept
      | inl (u, e) ↦ rw (e, reclaim) swept
    ]

state-cases :
    (state : ReservationState)
    → (state ≡ held) ⊎ ((state ≡ committed) ⊎ ((state ≡ released) ⊎ (state ≡ expired)))
state-cases held = inl refl
state-cases committed = inr (inl refl)
state-cases released = inr (inr (inl refl))
state-cases expired = inr (inr (inr refl))

commit_found-IsSound :
    (id : Identifier) (r : Reservation) (s : InventoryService)
    → IsSound s
    → all_positive r.lines ≡ true
    → IsSound (commit_found id r s).1
unfolding commit_found
commit_found-IsSound id r s h k = elim (state-cases r.state) [
  | inl e ↦
      rw (e, commit_found)
        (settle-IsSound sold id r committed s (change_items-sold r.lines s.stock h.0) h.1 k)
  | inr (inl e) ↦ rw (e, commit_found) h
  | inr (inr (inl e)) ↦ rw (e, commit_found) h
  | inr (inr (inr e)) ↦ rw (e, commit_found) h
]

release_found-IsSound :
    (id : Identifier) (r : Reservation) (s : InventoryService)
    → IsSound s
    → all_positive r.lines ≡ true
    → IsSound (release_found id r s).1
unfolding release_found
release_found-IsSound id r s h k =
    let given = give_back-IsSound id r released s h k in
    elim (state-cases r.state) [
      | inl e ↦ elim (Result-cases (settle returned id r released s).0) [
        | inr (x, e') ↦ rw (e, release_found) (rw e' given)
        | inl (u, e') ↦ rw (e, release_found) (rw e' given)
      ]
      | inr (inl e) ↦ rw (e, release_found) h
      | inr (inr (inl e)) ↦ rw (e, release_found) h
      | inr (inr (inr e)) ↦ rw (e, release_found) h
    ]

pub commit-IsSound : (id : Identifier) (s : InventoryService) → IsSound s → IsSound (commit id s).1
unfolding commit
commit-IsSound id s h = elim (Option-cases (get s.reservations id)) [
  | inl e ↦ rw (e, commit) h
  | inr (r, e) ↦
      rw (e, commit) (commit_found-IsSound id r s h (get-ArePositive s.reservations id r h.1 e))
]

pub release-IsSound :
    (id : Identifier) (s : InventoryService) → IsSound s → IsSound (release id s).1
unfolding release
release-IsSound id s h = elim (Option-cases (get s.reservations id)) [
  | inl e ↦ rw (e, release) h
  | inr (r, e) ↦
      rw (e, release) (release_found-IsSound id r s h (get-ArePositive s.reservations id r h.1 e))
]
