-- ===== src/History/Safe.antt =====
-- What a page of the history may hold.
use fenxin.Prelude.{
  find_one, ℕ, ◌≡◌, refl, ap, ◌∙◌, sym, subst, ◌⊎◌, inl, inr, Bool, true, false, not, ◌&&◌, ◌||◌,
  Option, some, List, [], ◌∷◌, ◌++◌, map, reverse, arith, length, In, All-In, has, ◌==◌,
  select_where, order_by, Bool-cases, if_cases, Option-cases, In-take, In-order_by_back,
  In-select_back, In-select, has-map, In-append, In-append_back, In-map_back, In-reverse_back,
}
use fenxin.Read.{newest_first}
use fenxin.Entities.{ConversationMember, member_is, Uuid, Date, Message, MessageReceipt, Db}
use fenxin.Result.{or_throw-eq-ok, ok, >>=-eq-ok, MessageView, plain, blurred, revealed, tombstone}
use fenxin.View.{normalize_mentions, is_due, view_of, view_all, apply_burn_view, tombstone_of}
use fenxin.View.Privacy.{IsAllowed, apply_burn_view-IsAllowed}
use fenxin.Send.{assert_member}
use fenxin.History.{
  Window, ListParams, limit_of, is_before, is_gone, page_rows, view_id, older_view, destroyed_views,
  alive_rows, window_of, purged_views, marked_views, unseen, attach_tombstones, list_messages,
}

-- A view without any content.
abbrev pub IsTombstone : MessageView → Type 0
IsTombstone (tombstone i c s t a d r) = Unit {0}
IsTombstone (plain m) = ⊥
IsTombstone (blurred m) = ⊥
IsTombstone (revealed m b r) = ⊥

-- The view of a stored message of the conversation that is neither destroyed nor due.
abbrev pub IsLiveView : Db → Uuid → Uuid → Date → MessageView → Type 0
IsLiveView db c u now v =
    (m : Message) × In m db.messages
    × (m.conversation_id ≡ c)
    × (m.is_destroyed ≡ false)
    × (is_due m.destroy_at now ≡ false)
    × (view_of db.receipts u now (normalize_mentions m) ≡ some v)

abbrev pub IsSafe : Db → Uuid → Uuid → Date → MessageView → Type 0
IsSafe db c u now v = IsTombstone v ⊎ (IsLiveView db c u now v × IsAllowed db.receipts u now v)

view_all-In :
    (receipts : List MessageReceipt) (u : Uuid) (now : Date) (ms : List Message) (v : MessageView)
    → In v (view_all receipts u now ms)
    → (m : Message) × In m ms × (view_of receipts u now m ≡ some v)
unfolding view_all
view_all-In receipts u now [] v h = absurd h
view_all-In receipts u now (m ∷ ms) v h = elim (Option-cases (view_of receipts u now m)) [
  | inl e ↦
      let k : In v (view_all receipts u now ms) = rw e at h in
      let (x, i, f) = view_all-In receipts u now ms v k in (x, inr i, f)
  | inr (w, e) ↦
      let k : In v (w ∷ view_all receipts u now ms) = rw e at h in
      elim k [
        | inl f ↦ (m, inl refl, e ∙ ap some (sym f))
        | inr i ↦ let (x, j, f) = view_all-In receipts u now ms v i in (x, inr j, f)
      ]
]

tombstones-map : (ms : List Message) (v : MessageView) → In v (map tombstone_of ms) → IsTombstone v
unfolding tombstone_of
tombstones-map ms v h = let (m, i, e) = In-map_back tombstone_of ms v h in rw e tt

purged-IsTombstone :
    (db : Db) (c : Uuid) (w : Window) (n : ℕ) (v : MessageView)
    → In v (purged_views db c w n)
    → IsTombstone v
unfolding purged_views
purged-IsTombstone db c w n v h = let (t, i, e) = In-map_back _ _ v h in rw e tt

unseen-In :
    (seen : List Uuid) (vs : List MessageView) (v : MessageView) → In v (unseen seen vs) → In v vs
unfolding unseen
unseen-In seen [] v h = h
unseen-In seen (x ∷ vs) v h = elim (Bool-cases (has (view_id x) seen)) [
  | inl e ↦ (let k : In v (unseen seen vs) = rw e at h in inr (unseen-In seen vs v k))
  | inr e ↦
      let k : In v (x ∷ unseen (view_id x ∷ seen) vs) = rw e at h in
      elim k [ inl f ↦ inl f | inr i ↦ inr (unseen-In (view_id x ∷ seen) vs v i) ]
]

attach_tombstones-In :
    (db : Db) (c : Uuid) (vs : List MessageView) (before : Option Date) (n : ℕ) (v : MessageView)
    → In v (attach_tombstones db c vs before n)
    → In v vs ⊎ IsTombstone v
unfolding attach_tombstones marked_views
attach_tombstones-In db c vs before n v h =
    let w = window_of vs before in
    let more = purged_views db c w n ++ marked_views db c w n in
    let both = vs ++ unseen (map view_id vs) more in
    let k : In v both =
      if_cases (λ (xs : List MessageView). In v xs → In v both)
        (length (purged_views db c w n) == 0 && length (marked_views db c w n) == 0) vs
        (order_by older_view both) (λ _ i. In-append vs (unseen (map view_id vs) more) v i)
        (λ _. In-order_by_back older_view both v) h in
    elim (In-append_back vs (unseen (map view_id vs) more) v k) [
      | inl i ↦ inl i
      | inr i ↦
          elim (In-append_back (purged_views db c w n) (marked_views db c w n) v
            (unseen-In (map view_id vs) more v i)) [
              | inl j ↦ inr (purged-IsTombstone db c w n v j)
              | inr j ↦ inr (tombstones-map _ v j)
            ]
    ]

destroyed-IsTombstone :
    (now : Date) (include : Bool) (ms : List Message) (v : MessageView)
    → In v (destroyed_views now include ms)
    → IsTombstone v
unfolding destroyed_views
destroyed-IsTombstone now true ms v h = tombstones-map _ v h
destroyed-IsTombstone now false ms v h = absurd h

-- A row of the page is stored in the conversation, and it is not gone unless the gone are included.
page_rows-In :
    (db : Db) (now : Date) (p : ListParams) (m : Message)
    → In m (page_rows db now p)
    → In m db.messages
      × (m.conversation_id ≡ p.conversation_id)
      × ((p.include_destroyed || not (is_gone now m)) ≡ true)
unfolding page_rows
page_rows-In db now p m h =
    let test = λ (x : Message).
      x.conversation_id == p.conversation_id
      && (p.include_destroyed || not (is_gone now x))
      && is_before p.before x.created_at in
    let rows = select_where test db.messages in
    let (stored, t) = In-select_back test db.messages m (
      In-order_by_back newest_first rows m
        (In-take (limit_of p.limit) (order_by newest_first rows) m h)) in
    (stored, ground arith, ground arith)

alive_rows-In :
    (now : Date) (include : Bool) (ms : List Message) (m : Message)
    → In m (alive_rows now include ms)
    → In m ms × ((not include || not (is_gone now m)) ≡ true)
unfolding alive_rows
alive_rows-In now false ms m h = (h, refl)
alive_rows-In now true ms m h =
    let gone = select_where (is_gone now) ms in
    let test = λ (x : Message). not (has x.id (map (λ (y : Message). y.id) gone)) in
    let (i, t) = In-select_back test ms m h in
    (
      i,
      elim (Bool-cases (is_gone now m)) [
        | inl e ↦
            let listed =
              has-map (λ (y : Message). y.id) gone m (In-select (is_gone now) ms m i e) in
            cc (t, listed)
        | inr e ↦ rw e refl
      ],
    )

alive-IsLiveView :
    (db : Db) (now : Date) (p : ListParams) (v : MessageView)
    → In v (
        apply_burn_view db p.user_id now
          (reverse (alive_rows now p.include_destroyed (page_rows db now p))))
    → IsLiveView db p.conversation_id p.user_id now v
unfolding apply_burn_view is_gone
alive-IsLiveView db now p v h =
    let alive = alive_rows now p.include_destroyed (page_rows db now p) in
    let (x, i, shown) =
      view_all-In db.receipts p.user_id now (map normalize_mentions (reverse alive)) v h in
    let (m, j, same) = In-map_back normalize_mentions (reverse alive) x i in
    let (k, t) =
      alive_rows-In now p.include_destroyed (page_rows db now p) m (In-reverse_back alive m j) in
    let (stored, here, s) = page_rows-In db now p m k in
    let both : is_gone now m ≡ false = ground arith in
    (
      m,
      stored,
      here,
      ground arith,
      ground arith,
      subst (λ y. view_of db.receipts p.user_id now y ≡ some v) same shown,
    )

-- The page before its errors.
unfoldable merged_page : Db → Date → ListParams → List MessageView
merged_page db now p =
    let rows = page_rows db now p in
    let view =
      apply_burn_view db p.user_id now (reverse (alive_rows now p.include_destroyed rows)) in
    attach_tombstones db p.conversation_id
      (order_by older_view (view ++ destroyed_views now p.include_destroyed rows)) p.before
      (limit_of p.limit)

merged_page-IsSafe :
    (db : Db) (now : Date) (p : ListParams) (v : MessageView)
    → In v (merged_page db now p)
    → IsSafe db p.conversation_id p.user_id now v
unfolding merged_page
merged_page-IsSafe db now p v i =
    let rows = page_rows db now p in
    let view =
      apply_burn_view db p.user_id now (reverse (alive_rows now p.include_destroyed rows)) in
    let gone = destroyed_views now p.include_destroyed rows in
    let merged = order_by older_view (view ++ gone) in
    elim (attach_tombstones-In db p.conversation_id merged p.before (limit_of p.limit) v i) [
      | inr t ↦ inl t
      | inl k ↦ elim (In-append_back view gone v (In-order_by_back older_view (view ++ gone) v k)) [
        | inl j ↦ inr (
          alive-IsLiveView db now p v j,
          All-In (IsAllowed db.receipts p.user_id now) view v
              (apply_burn_view-IsAllowed db p.user_id now
                (reverse (alive_rows now p.include_destroyed rows)))
              j,
        )
        | inr j ↦ inl (destroyed-IsTombstone now p.include_destroyed rows v j)
      ]
    ]

-- A page of the history, with or without the destroyed messages, that holds an entry is given only
-- to a member of the conversation, and each entry is a tombstone, or the view of a stored message
-- of the conversation that is neither destroyed nor due; that view obeys the rule for burn
-- messages.
pub list_messages-IsSafe :
    (db : Db) (now : Date) (p : ListParams) (vs : List MessageView) (v : MessageView)
    → list_messages db now p ≡ ok vs
    → In v vs
    → ((m : ConversationMember) × (find_one (member_is p.conversation_id p.user_id) db.members
          ≡ some m))
      × IsSafe db p.conversation_id p.user_id now v
unfolding list_messages assert_member merged_page
list_messages-IsSafe db now p vs v h i =
    let (m, a, f) = >>=-eq-ok (assert_member db p.conversation_id p.user_id) _ h in
    let same : merged_page db now p ≡ vs = ground arith in
    (
      (m, or_throw-eq-ok (find_one (member_is p.conversation_id p.user_id) db.members) _ a),
      merged_page-IsSafe db now p v (rw same i),
    )
