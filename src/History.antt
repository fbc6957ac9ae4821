-- ===== src/History.antt =====
-- `listMessages` and `attachTombstones` of src/modules/message/message.service.ts: a page of a
-- conversation's history. `before` is a valid date, and the present is read once. The sort by time
-- keeps the order of equal times.
pub mod Safe
mod Tests
use fenxin.Prelude.{
  ℕ, zero, suc, ◌≡◌, Bool, true, false, not, ◌&&◌, ◌||◌, Option, none, some, List, [], ◌∷◌, ◌++◌,
  map, reverse, min, max, take, length, has, leb, ltb, ◌==◌, if◌then◌else◌, is_some, select_where,
  order_by,
}
use fenxin.Entities.{Uuid, Date, Message, MessageTombstone, Db}
use fenxin.Result.{Result, ok, err, ◌>>=◌, MessageView, plain, blurred, revealed, tombstone}
use fenxin.View.{is_due, apply_burn_view, tombstone_of}
use fenxin.Send.{assert_member}
use fenxin.Read.{newest_first}

pub record ListParams : Type 0 where
  pub conversation_id : Uuid
  pub user_id : Uuid
  pub before : Option Date
  pub limit : Option ℕ
  pub include_destroyed : Bool

-- `params.limit || 50`
abbrev pub limit_of : Option ℕ → ℕ
limit_of none = 50
limit_of (some zero) = 50
limit_of (some (suc n)) = suc n

abbrev pub is_before : Option Date → Date → Bool
is_before none t = true
is_before (some b) t = ltb t b

-- `m.is_destroyed || m.destroy_at <= now`
unfoldable pub is_gone : Date → Message → Bool
is_gone now m = m.is_destroyed || is_due m.destroy_at now

-- The rows of the page, the newest first.
unfoldable pub page_rows : Db → Date → ListParams → List Message
unfolding order_by select_where is_gone
page_rows db now p = take (limit_of p.limit) (
    order_by newest_first (
      select_where
        (λ m.
          m.conversation_id == p.conversation_id
          && (p.include_destroyed || not (is_gone now m))
          && is_before p.before m.created_at)
        db.messages))

abbrev pub view_id : MessageView → Uuid
view_id (plain m) = m.id
view_id (blurred m) = m.id
view_id (revealed m burn_at remain) = m.id
view_id (tombstone id c s t created_at d r) = id

abbrev pub view_created_at : MessageView → Date
view_created_at (plain m) = m.created_at
view_created_at (blurred m) = m.created_at
view_created_at (revealed m burn_at remain) = m.created_at
view_created_at (tombstone id c s t created_at d r) = created_at

abbrev pub older_view : MessageView → MessageView → Bool
older_view x y = leb (view_created_at x) (view_created_at y)

-- `destroyedViews`
unfoldable pub destroyed_views : Date → Bool → List Message → List MessageView
unfolding select_where is_gone tombstone_of
destroyed_views now include_destroyed messages =
    if include_destroyed then map tombstone_of (select_where (is_gone now) messages) else []

-- `alive`
unfoldable pub alive_rows : Date → Bool → List Message → List Message
unfolding select_where is_gone has
alive_rows now include_destroyed messages =
    let destroyed_ids = map (λ (m : Message). m.id) (select_where (is_gone now) messages) in
    if include_destroyed
    then select_where (λ m. not (has m.id destroyed_ids)) messages
    else messages

-- The times of the tombstones that belong to the page: an interval, the times before one, or all.
pub data Window : Type 0 where
  between : Date → Date → Window
  earlier : Date → Window
  anything : Window

abbrev times_of : List MessageView → List Date
times_of vs = map view_created_at vs

abbrev least : Date → List Date → Date
least t [] = t
least t (x ∷ xs) = least (min t x) xs

abbrev greatest : Date → List Date → Date
greatest t [] = t
greatest t (x ∷ xs) = greatest (max t x) xs

unfoldable pub window_of : List MessageView → Option Date → Window
window_of [] none = anything
window_of [] (some b) = earlier b
window_of (v ∷ vs) before =
    between (least (view_created_at v) (times_of vs)) (greatest (view_created_at v) (times_of vs))

abbrev pub in_window : Window → Date → Bool
in_window (between from to) t = leb from t && leb t to
in_window (earlier to) t = ltb t to
in_window anything t = true

abbrev newest_tombstone : MessageTombstone → MessageTombstone → Bool
newest_tombstone x y = leb y.created_at x.created_at

-- `tombQb`: the tombstones of the rows that are deleted.
unfoldable pub purged_views : Db → Uuid → Window → ℕ → List MessageView
unfolding select_where order_by
purged_views db conversation_id window limit = map view (
    take limit (
      order_by newest_tombstone (
        select_where (λ t. t.conversation_id == conversation_id && in_window window t.created_at)
          db.tombstones)))
  where
    view : MessageTombstone → MessageView
    view t =
        tombstone t.id t.conversation_id t.sender_id t.type t.created_at (some t.destroyed_at)
          (some t.destroy_reason)

-- `markedQb`: the tombstones of the rows that are marked.
unfoldable pub marked_views : Db → Uuid → Window → ℕ → List MessageView
unfolding select_where order_by tombstone_of
marked_views db conversation_id window limit = map tombstone_of (
    take limit (
      order_by newest_first (
        select_where
          (λ m.
            m.conversation_id == conversation_id && m.is_destroyed && in_window window m.created_at)
          db.messages)))

-- The calls of `push`: the views whose id has not been seen, each once.
unfoldable pub unseen : List Uuid → List MessageView → List MessageView
unfolding has
unseen seen [] = []
unseen seen (v ∷ vs) =
    let fresh = v ∷ unseen (view_id v ∷ seen) vs in
    let rest = unseen seen vs in if has (view_id v) seen then rest else fresh

unfoldable pub attach_tombstones : Db → Uuid → List MessageView → Option Date → ℕ → List MessageView
unfolding window_of purged_views marked_views unseen order_by
attach_tombstones db conversation_id list before limit =
    let window = window_of list before in
    let purged = purged_views db conversation_id window limit in
    let marked = marked_views db conversation_id window limit in
    let extra = unseen (map view_id list) (purged ++ marked) in
    if length purged == 0 && length marked == 0 then list else order_by older_view (list ++ extra)

unfoldable pub list_messages : Db → Date → ListParams → Result (List MessageView)
unfolding assert_member page_rows destroyed_views alive_rows apply_burn_view attach_tombstones
    order_by
list_messages db now p = do
  membership ← assert_member db p.conversation_id p.user_id
  let messages = page_rows db now p
  let view =
      apply_burn_view db p.user_id now (reverse (alive_rows now p.include_destroyed messages))
  let merged = order_by older_view (view ++ destroyed_views now p.include_destroyed messages)
  ok (attach_tombstones db p.conversation_id merged p.before (limit_of p.limit))
