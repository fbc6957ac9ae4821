-- ===== src/View/Tests.antt =====
-- The chat of the fixtures as its two members see it.
use fenxin.Prelude.{◌≡◌, refl, some, [], ◌∷◌, All, find_one}
use fenxin.Result.{blurred, revealed, plain}
use fenxin.Fixtures.{burn_row, reply_row, opened_db}
use fenxin.Burn.{effective_remain_seconds}
use fenxin.View.{apply_burn_view, mask_burn_message}
use fenxin.View.Privacy.{IsAllowed, apply_burn_view-IsAllowed}

-- User 2, who has opened the message, sees it until 52000; user 1 has not.
opener :
    apply_burn_view opened_db 2 3000 (burn_row ∷ reply_row ∷ [])
    ≡ revealed burn_row (some 52000) 49 ∷ plain reply_row ∷ []
unfolding apply_burn_view find_one effective_remain_seconds
opener = refl

late : apply_burn_view opened_db 2 52000 (burn_row ∷ reply_row ∷ []) ≡ plain reply_row ∷ []
unfolding apply_burn_view find_one
late = refl

other : apply_burn_view opened_db 1 3000 (burn_row ∷ []) ≡ blurred (mask_burn_message burn_row) ∷ []
unfolding apply_burn_view find_one
other = refl

apply_burn_view-IsAllowed_example :
    All (IsAllowed opened_db.receipts 2 3000) (apply_burn_view opened_db 2 3000 (burn_row ∷ []))
apply_burn_view-IsAllowed_example = apply_burn_view-IsAllowed opened_db 2 3000 (burn_row ∷ [])
