-- ===== src/Tests/StockRuns.antt =====
-- Stock that is reserved, and a reservation that is committed and one that runs out.
use hld_lld_interview_handbo.Prelude.{
  ◌≡◌, refl, string_dec, ℕ_discrete, List, [], ◌∷◌, none, some, All,
}
use hld_lld_interview_handbo.Prelude.Int.{pos, ◌+ℤ◌, ◌-ℤ◌, ◌≤ℤ◌}
use hld_lld_interview_handbo.Dict.{string_key, get, put}
use hld_lld_interview_handbo.Common.Error.{ok}
use hld_lld_interview_handbo.Common.Ids.{next_id}
use hld_lld_interview_handbo.Inventory.{
  InventoryService, StockItem, available_units, new_service, stock_in, commit, commit_found, settle,
  change_items, lapsed, expire_all, reclaim, versions,
}
use hld_lld_interview_handbo.Inventory.Reserve.{
  reserve, reserve_swept, reserve_new, take_lines, check_lines, all_known, any_stale, any_short,
  all_positive,
}
use hld_lld_interview_handbo.Inventory.Oversell.{
  Event, stocks_in, reserves, commits, expires, reads, happen, happen_all, IsRequest,
  never_oversold,
}
use hld_lld_interview_handbo.Inventory.FlashSale.{FlashSaleCounter}

abbrev service : InventoryService
service = record {
  clock = record { now = pos 0 };
  ids = record { prefix = "rsv"; counter = 1 };
  ttl = pos 900;
  stock = [];
  reservations = [];
  by_order = [];
}

-- The second request is refused, and the third runs out.
abbrev sale : List Event
sale =
    stocks_in "pen" (pos 5)
    ∷ reserves "order-1" (("pen", pos 2) ∷ []) none
    ∷ reserves "order-2" (("pen", pos 4) ∷ []) none
    ∷ reserves "order-3" (("pen", pos 3) ∷ []) none
    ∷ commits (record { prefix = "rsv"; number = 1 })
    ∷ reads (pos 1000)
    ∷ expires
    ∷ []

abbrev left_over : StockItem
left_over = record { on_hand = pos 3; reserved = pos 0; version = 5 }

left_over-found : get (happen_all sale service).stock "pen" ≡ some left_over
unfolding happen_all happen stock_in reserve reserve_swept reserve_new take_lines check_lines
    all_known any_stale any_short all_positive commit commit_found settle change_items lapsed
    expire_all reclaim versions next_id get put string_dec ℕ_discrete ◌+ℤ◌ ◌-ℤ◌
left_over-found = refl

started :
    new_service (record { now = pos 0 }) (record { prefix = "rsv"; counter = 1 }) (pos 900)
    ≡ ok service
unfolding new_service
started = refl

sale-IsRequest : All IsRequest sale
unfolding get
sale-IsRequest = (tt, ((refl, tt), ((refl, tt), ((refl, tt), (tt, (tt, (tt, tt)))))))

never_oversold_example : pos 0 ≤ℤ available_units left_over
never_oversold_example =
    never_oversold (record { now = pos 0 }) (record { prefix = "rsv"; counter = 1 }) (pos 900)
      service sale "pen" left_over started sale-IsRequest left_over-found

abbrev counter : FlashSaleCounter
counter = record { sku = "pen"; shards = pos 1 ∷ pos 3 ∷ []; cursor = 0 }
