-- ===== src/BurnSettings/Rows.antt =====
-- The table of settings through any number of writes: one row for each owner and scope, ttls within
-- the limits, distinct ids.
use fenxin.Prelude.{
  ℕ, ◌≤◌, ◌≡◌, refl, subst, inl, inr, Bool, true, false, Option, none, some, List, [], ◌∷◌, ◌++◌,
  map, arith, Bool-cases, Option-cases, has, IsDistinct, All, All-append, All-update, All-delete,
  find_one, count_where, delete_where, map-update_key, sym, delete-IsDistinct, snoc-IsDistinct,
  count-update, count-snoc, count-delete_le, count-absent,
}
use fenxin.Entities.{Uuid, Date, Db, user_is, member_is, conversation_is}
use fenxin.Result.{ok}
use fenxin.Send.{assert_member}
use fenxin.BurnSettings.{
  BurnScopeType, user_scope, conversation_scope, BurnSetting, burn_ttl_max_seconds, setting_of,
  find_own, setting_is, set_ttl, new_setting, upsert_found, upsert, assert_ttl_range, set_for_user,
  set_for_conversation, clear_for_user, clear_for_conversation, same_scope,
}

abbrev pub ids_of : List BurnSetting → List Uuid
ids_of settings = map (λ (s : BurnSetting). s.id) settings

-- A ttl between a second and thirty days.
abbrev pub IsBurnTtl : ℕ → Type 0
IsBurnTtl t = (1 ≤ t) × (t ≤ burn_ttl_max_seconds)

abbrev pub HasBurnTtl : BurnSetting → Type 0
HasBurnTtl s = IsBurnTtl s.ttl_seconds

pub record IsSettings (settings : List BurnSetting) : Type 0 where
  pub distinct : IsDistinct (ids_of settings)
  pub unique :
      (o : Uuid) (t : BurnScopeType) (i : Uuid) → count_where (setting_of o t i) settings ≤ 1
  pub limited : All HasBurnTtl settings

-- A write of the owner that succeeds; the id of a new row is fresh.
pub data Write (db : Db) (owner_id : Uuid) : List BurnSetting → List BurnSetting → Type 0 where
  for_user :
      (uuid : Uuid) (now : Date) (target ttl : ℕ) (s s' : List BurnSetting)
      → has uuid (ids_of s) ≡ false
      → set_for_user uuid s db now owner_id target ttl ≡ ok s'
      → Write db owner_id s s'
  for_conversation :
      (uuid : Uuid) (now : Date) (conversation_id ttl : ℕ) (s s' : List BurnSetting)
      → has uuid (ids_of s) ≡ false
      → set_for_conversation uuid s db now owner_id conversation_id ttl ≡ ok s'
      → Write db owner_id s s'
  clear_user :
      (target : Uuid) (s : List BurnSetting)
      → Write db owner_id s (clear_for_user s owner_id target)
  clear_conversation :
      (conversation_id : Uuid) (s : List BurnSetting)
      → Write db owner_id s (clear_for_conversation s owner_id conversation_id)

-- What a write does: it stores a ttl within the limits, or deletes a row of its owner.
pub assert_ttl_range-IsBurnTtl : (t : ℕ) → assert_ttl_range t ≡ ok tt → IsBurnTtl t
unfolding assert_ttl_range
assert_ttl_range-IsBurnTtl t h = ground (arith)

pub set_for_user-eq-ok :
    (uuid : Uuid) (s : List BurnSetting) (db : Db) (now : Date) (o i t : ℕ) (s' : List BurnSetting)
    → set_for_user uuid s db now o i t ≡ ok s'
    → IsBurnTtl t × (s' ≡ upsert uuid s now o user_scope i t)
unfolding set_for_user
set_for_user-eq-ok uuid s db now o i t s' h = elim (Option-cases (find_one (user_is i) db.users)) [
  | inl e ↦ absurd (ground (arith, e))
  | inr (u, e) ↦ (assert_ttl_range-IsBurnTtl t (ground (arith, e)), ground (arith, e))
]

pub set_for_conversation-eq-ok :
    (uuid : Uuid) (s : List BurnSetting) (db : Db) (now : Date) (o i t : ℕ) (s' : List BurnSetting)
    → set_for_conversation uuid s db now o i t ≡ ok s'
    → IsBurnTtl t × (s' ≡ upsert uuid s now o conversation_scope i t)
unfolding set_for_conversation assert_member
set_for_conversation-eq-ok uuid s db now o i t s' h =
    elim (Option-cases (find_one (conversation_is i) db.conversations)) [
      | inl e ↦ absurd (ground (arith, e))
      | inr (c, e) ↦ elim (Option-cases (find_one (member_is i o) db.members)) [
        | inl f ↦ absurd (ground (arith, e, f))
        | inr (m, f) ↦ (assert_ttl_range-IsBurnTtl t (ground (arith, e, f)), ground (arith, e, f))
      ]
    ]

same_scope→≡ : (t u : BurnScopeType) → same_scope t u ≡ true → u ≡ t
same_scope→≡ user_scope user_scope h = refl
same_scope→≡ conversation_scope conversation_scope h = refl
same_scope→≡ user_scope conversation_scope h = absurd (ground arith)
same_scope→≡ conversation_scope user_scope h = absurd (ground arith)

-- A row passes the test of one key only.
pub setting_of→key :
    (o : Uuid) (t : BurnScopeType) (i : Uuid) (s : BurnSetting)
    → setting_of o t i s ≡ true
    → (s.owner_id ≡ o) × (s.scope_type ≡ t) × (s.scope_id ≡ i)
unfolding setting_of
setting_of→key o t i s h =
    let scope : same_scope t s.scope_type ≡ true = ground arith in
    (ground arith, same_scope→≡ t s.scope_type scope, ground arith)

snoc_unique :
    (s : List BurnSetting) (a : BurnSetting)
    → find_one (setting_of a.owner_id a.scope_type a.scope_id) s ≡ none
    → ((o : Uuid) (t : BurnScopeType) (i : Uuid) → count_where (setting_of o t i) s ≤ 1)
    → (o : Uuid) (t : BurnScopeType) (i : Uuid) → count_where (setting_of o t i) (s ++ a ∷ []) ≤ 1
unfolding count_where
snoc_unique s a e h o t i = elim (Bool-cases (setting_of o t i a)) [
  | inl y ↦
      let (p, q, r) = setting_of→key o t i a y in
      let gone : find_one (setting_of o t i) s ≡ none =
        subst (λ x. find_one (setting_of x t i) s ≡ none) p
          (subst (λ x. find_one (setting_of a.owner_id x i) s ≡ none) q
            (subst (λ x. find_one (setting_of a.owner_id a.scope_type x) s ≡ none) r e)) in
      ground (arith, y, count-snoc (setting_of o t i) s a, count-absent (setting_of o t i) s gone)
  | inr y ↦ ground (arith, y, count-snoc (setting_of o t i) s a, h o t i)
]

IsSettings-upsert_found :
    (uuid : Uuid) (s : List BurnSetting) (now : Date) (o : Uuid) (t : BurnScopeType) (i ttl : ℕ)
    (existing : Option BurnSetting)
    → has uuid (ids_of s) ≡ false
    → IsBurnTtl ttl
    → find_own s o t i ≡ existing
    → IsSettings s
    → IsSettings (upsert_found s now (new_setting uuid now o t i ttl) existing)
unfolding find_own
IsSettings-upsert_found uuid s now o t i ttl none fresh l e k = record {
  distinct =
      snoc-IsDistinct (λ (s : BurnSetting). s.id) s (new_setting uuid now o t i ttl) k.distinct
        fresh;
  unique = λ o' t' i'. snoc_unique s (new_setting uuid now o t i ttl) e k.unique o' t' i';
  limited = All-append HasBurnTtl s _ k.limited (l, tt);
}
IsSettings-upsert_found uuid s now o t i ttl (some x) fresh l e k = record {
  distinct =
      subst IsDistinct
        (sym (
          map-update_key (λ (s : BurnSetting). s.id) (setting_is x.id) (set_ttl ttl now) s
            (λ _. refl)))
        k.distinct;
  unique = λ o' t' i'. omega (
    arith,
    k.unique o' t' i',
    count-update (setting_of o' t' i') (setting_is x.id) (set_ttl ttl now) s (λ _. refl),
  );
  limited = All-update HasBurnTtl (setting_is x.id) (set_ttl ttl now) s (λ a _ _. l) k.limited;
}

pub delete-IsSettings :
    (p : BurnSetting → Bool) (s : List BurnSetting) → IsSettings s → IsSettings (delete_where p s)
delete-IsSettings p s k = record {
  distinct = delete-IsDistinct (λ (s : BurnSetting). s.id) p s k.distinct;
  unique = λ o t i. omega (arith, count-delete_le (setting_of o t i) p s, k.unique o t i);
  limited = All-delete HasBurnTtl p s k.limited;
}

upsert-IsSettings :
    (uuid : Uuid) (s : List BurnSetting) (now : Date) (o : Uuid) (t : BurnScopeType) (i ttl : ℕ)
    → has uuid (ids_of s) ≡ false
    → IsBurnTtl ttl
    → IsSettings s
    → IsSettings (upsert uuid s now o t i ttl)
unfolding upsert
upsert-IsSettings uuid s now o t i ttl fresh l k =
    IsSettings-upsert_found uuid s now o t i ttl (find_own s o t i) fresh l refl k

pub Write-IsSettings :
    (db : Db) (o : Uuid) (s s' : List BurnSetting) → Write db o s s' → IsSettings s → IsSettings s'
unfolding clear_for_user clear_for_conversation
Write-IsSettings db o s s' (for_user uuid now i ttl _ _ fresh h) k =
    let (l, e) = set_for_user-eq-ok uuid s db now o i ttl s' h in
    subst IsSettings (sym e) (upsert-IsSettings uuid s now o user_scope i ttl fresh l k)
Write-IsSettings db o s s' (for_conversation uuid now i ttl _ _ fresh h) k =
    let (l, e) = set_for_conversation-eq-ok uuid s db now o i ttl s' h in
    subst IsSettings (sym e) (upsert-IsSettings uuid s now o conversation_scope i ttl fresh l k)
Write-IsSettings db o s s' (clear_user i _) k = delete-IsSettings (setting_of o user_scope i) s k
Write-IsSettings db o s s' (clear_conversation i _) k =
    delete-IsSettings (setting_of o conversation_scope i) s k

-- Writes of any owners one after the other; the other tables may change between them.
pub data Writes : List BurnSetting → List BurnSetting → Type 0 where
  stop : (s : List BurnSetting) → Writes s s
  step :
      (db : Db) (o : Uuid) (s s' s'' : List BurnSetting)
      → Write db o s s'
      → Writes s' s''
      → Writes s s''

empty-IsSettings : IsSettings []
unfolding count_where
empty-IsSettings = record { distinct = tt; unique = λ o t i. omega arith; limited = tt }

Writes-keep : (s s' : List BurnSetting) → Writes s s' → IsSettings s → IsSettings s'
Writes-keep s s' (stop _) k = k
Writes-keep s s' (step db o _ r _ w ws) k = Writes-keep r s' ws (Write-IsSettings db o s r w k)

-- After any writes from the empty table on, the table has one row at most for each owner and scope,
-- and each ttl lies between a second and thirty days.
pub Writes-IsSettings : (s : List BurnSetting) → Writes [] s → IsSettings s
Writes-IsSettings s w = Writes-keep [] s w empty-IsSettings
