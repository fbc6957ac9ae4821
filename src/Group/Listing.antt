-- ===== src/Group/Listing.antt =====
-- `getGroupMembers` and `adminListGroups` of src/modules/group/group.service.ts. MySQL's LIKE is
-- the parameter `like`, of a pattern and a text.
use fenxin.Prelude.{
  or_default, drop, ℕ, ◌-◌, ◌*◌, ◌≡◌, ap, sym, subst, ◌⊎◌, is_some-eq-false, inl, inr, Bool, true,
  false, not, ◌&&◌, ◌||◌, Option, none, some, List, [], ◌∷◌, ◌++◌, map, arith, take, length, In,
  ◌==◌, if◌then◌else◌, is_some, leb, find_one, select_where, order_by, Option-cases, In-select_back,
  In-order_by_back, find_one-passes, find_one-In,
}
use fenxin.Entities.{
  Uuid, Text, is_truthy, AppUser, UserRole, is_admin, is_active, Conversation, ConversationMember,
  Db, is_group, is_owner, in_conversation, member_is,
}
use fenxin.Result.{Result, ok, ◌>>=◌, >>=-eq-ok}
use fenxin.Send.{assert_member, members_of}
use fenxin.Read.{display_name_of}

-- A member row with the account's name and picture.
pub record GroupMember : Type 0 where
  pub row : ConversationMember
  pub user_display_name : Text
  pub user_avatar_url : Option Text

-- `ORDER BY role ASC`: 'member' stands before 'owner'.
abbrev pub role_before : ConversationMember → ConversationMember → Bool
role_before x y = not (is_owner x.role) || is_owner y.role

abbrev pub is_listed_user : Uuid → AppUser → Bool
is_listed_user id u = u.id == id && is_active u.status && not (is_some u.deleted_at)

abbrev with_user : ConversationMember → Option AppUser → List GroupMember → List GroupMember
with_user m none rest = rest
with_user m (some u) rest =
    record { row = m; user_display_name = display_name_of (some u); user_avatar_url = u.avatar_url }
    ∷ rest

-- `userMap`: the accounts that are active and not deleted.
unfoldable pub with_users : List AppUser → List ConversationMember → List GroupMember
unfolding find_one
with_users users [] = []
with_users users (m ∷ ms) =
    with_user m (find_one (is_listed_user m.user_id) users) (with_users users ms)

abbrev pub is_admin_role : Option UserRole → Bool
is_admin_role none = false
is_admin_role (some r) = is_admin r

unfoldable pub check_requester : Db → Uuid → Uuid → Option UserRole → Result (Unit {0})
unfolding assert_member
check_requester db conversation_id requester_id requester_role =
    let checked = assert_member db conversation_id requester_id >>= λ _. ok tt in
    if is_admin_role requester_role then ok tt else checked

unfoldable pub get_group_members : Db → Uuid → Uuid → Option UserRole → Result (List GroupMember)
unfolding check_requester members_of with_users order_by
get_group_members db conversation_id requester_id requester_role = do
  checked ← check_requester db conversation_id requester_id requester_role
  ok (with_users db.users (order_by role_before (members_of db conversation_id)))

pub record GroupQuery : Type 0 where
  pub page : Option ℕ
  pub page_size : Option ℕ
  pub keyword : Option Text
  pub include_dissolved : Bool

pub record GroupRow : Type 0 where
  pub row : Conversation
  pub owner_display_name : Option Text
  pub owner_phone : Option Text
  pub is_dissolved : Bool

abbrev matches : (Text → Text → Bool) → Option Text → Option Text → Bool
matches like none name = true
matches like (some kw) none = not (is_truthy (some kw))
matches like (some kw) (some name) = not (is_truthy (some kw)) || like (b'%' ∷ kw ++ b'%' ∷ []) name

unfoldable pub is_queried : (Text → Text → Bool) → GroupQuery → Conversation → Bool
is_queried like q c =
    is_group c.type
    && (q.include_dissolved || not (is_some c.dissolved_at))
    && matches like q.keyword c.name

abbrev newest_group : Conversation → Conversation → Bool
newest_group x y = leb y.created_at x.created_at

abbrev owner_of : Db → Option Uuid → Option AppUser
owner_of db none = none
owner_of db (some id) = find_one (λ (u : AppUser). u.id == id) db.users

unfoldable pub group_row : Db → Conversation → GroupRow
unfolding find_one
group_row db c = record {
  row = c;
  owner_display_name = elim (owner_of db c.owner_id) [ none ↦ none | some u ↦ some u.display_name ];
  owner_phone = elim (owner_of db c.owner_id) [ none ↦ none | some u ↦ some u.phone ];
  is_dissolved = is_some c.dissolved_at;
}

-- The page and the number of groups over all pages.
unfoldable pub admin_list_groups : (Text → Text → Bool) → Db → GroupQuery → List GroupRow × ℕ
unfolding is_queried select_where order_by group_row
admin_list_groups like db q =
    let page_size = or_default q.page_size 20 in
    let groups = select_where (is_queried like q) db.conversations in
    (
      map (group_row db) (
          take page_size
            (drop ((or_default q.page 1 - 1) * page_size) (order_by newest_group groups))),
      length groups,
    )

-- A listed member: a member row of the conversation, of an account that is active and not deleted.
abbrev pub IsListed : Db → Uuid → GroupMember → Type 0
IsListed db c v =
    In v.row db.members
    × (v.row.conversation_id ≡ c)
    × (u : AppUser) × In u db.users
    × (u.id ≡ v.row.user_id)
    × (is_active u.status ≡ true)
    × (u.deleted_at ≡ none)

with_users_sound :
    (users : List AppUser) (ms : List ConversationMember) (v : GroupMember)
    → In v (with_users users ms)
    → In v.row ms × (u : AppUser) × (find_one (is_listed_user v.row.user_id) users ≡ some u)
unfolding with_users
with_users_sound users [] v h = absurd h
with_users_sound users (m ∷ ms) v h =
    elim (Option-cases (find_one (is_listed_user m.user_id) users)) [
      | inl e ↦
          let k : In v (with_users users ms) = rw e at h in
          let (i, u, f) = with_users_sound users ms v k in (inr i, u, f)
      | inr (u, e) ↦
          let k : In v (with_user m (some u) (with_users users ms)) = rw e at h in
          elim k [
            | inl f ↦ (
              inl (ap (λ (x : GroupMember). x.row) f),
              u,
              subst (λ (r : ConversationMember). find_one (is_listed_user r.user_id) users ≡ some u)
                  (sym (ap (λ (x : GroupMember). x.row) f)) e,
            )
            | inr f ↦ let (i, u', g) = with_users_sound users ms v f in (inr i, u', g)
          ]
    ]

-- A list of members with an entry is given only to a member or to an administrator, and each entry
-- is a member row of the conversation whose account is active and not deleted.
pub get_group_members-IsListed :
    (db : Db) (c requester_id : Uuid) (role : Option UserRole) (vs : List GroupMember)
    (v : GroupMember)
    → get_group_members db c requester_id role ≡ ok vs
    → In v vs
    → ((is_admin_role role ≡ true)
        ⊎ ((m : ConversationMember) × (find_one (member_is c requester_id) db.members ≡ some m)))
      × IsListed db c v
unfolding get_group_members check_requester assert_member members_of
get_group_members-IsListed db c requester_id role vs v h i =
    let ms = order_by role_before (select_where (in_conversation c) db.members) in
    let (u, a, f) = >>=-eq-ok (check_requester db c requester_id role) _ h in
    let same : with_users db.users ms ≡ vs = ground arith in
    let (listed, x, e) = with_users_sound db.users ms v (rw same i) in
    let (stored, here) =
      In-select_back (in_conversation c) db.members v.row
        (In-order_by_back role_before (select_where (in_conversation c) db.members) v.row listed) in
    let passes = find_one-passes (is_listed_user v.row.user_id) db.users x e in
    (
      elim (Option-cases (find_one (member_is c requester_id) db.members)) [
        | inl none_found ↦ inl (ground arith)
        | inr (m, found) ↦ inr (m, found)
      ],
      (
        stored,
        ground arith,
        x,
        find_one-In (is_listed_user v.row.user_id) db.users x e,
        ground arith,
        ground arith,
        is_some-eq-false x.deleted_at (ground arith),
      ),
    )
