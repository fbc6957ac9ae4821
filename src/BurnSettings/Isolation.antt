-- ===== src/BurnSettings/Isolation.antt =====
-- The settings of one user do not touch those of another, and the ttl that a message takes.
use fenxin.Prelude.{
  ℕ, ◌≡◌, refl, subst, sym, ◌∙◌, inl, inr, ◌⊎◌, Bool, true, false, Option, none, some, List, [],
  ◌∷◌, ◌++◌, arith, ◌==◌, Bool-cases, Option-cases, IsDistinct, find_one, All, All-find, if_cases,
  find_one-update, find_one-by_key, find_one-passes, find_one-delete_other, if◌then◌else◌,
}
use mathlib.Core.Option
use fenxin.Entities.{Uuid, Date, Db, Conversation, is_private, conversation_is}
use fenxin.Result.{ok, >>=-eq-ok, ◌>>=◌, or_throw, not_found, conversation_missing}
use fenxin.Send.{assert_member}
use fenxin.BurnSettings.{
  BurnScopeType, user_scope, conversation_scope, BurnSetting, setting_of, find_own, setting_is,
  set_ttl, new_setting, upsert_found, upsert, clear_for_user, clear_for_conversation,
}
use fenxin.BurnSettings.Resolve.{
  Counterpart, resolution, own_for, resolve_member, get_global_default, find_counterpart,
  resolve_for_conversation, BurnSettingResolution, BurnTtlSource, contact_setting,
  conversation_setting,
}
use fenxin.BurnSettings.Rows.{
  ids_of, IsBurnTtl, HasBurnTtl, IsSettings, Write, for_user, for_conversation, clear_user,
  clear_conversation, Writes, set_for_user-eq-ok, set_for_conversation-eq-ok, Write-IsSettings,
  Writes-IsSettings,
}

setting_of-other :
    (a o : Uuid) (t u : BurnScopeType) (i j : Uuid) (x : BurnSetting)
    → (o == a) ≡ false
    → setting_of a t i x ≡ true
    → setting_of o u j x ≡ false
unfolding setting_of
setting_of-other a o t u i j x n h = ground arith

find_one-snoc_other :
    {A : Type 0} (p : A → Bool) (xs : List A) (a : A)
    → p a ≡ false
    → find_one p (xs ++ a ∷ []) ≡ find_one p xs
unfolding find_one
find_one-snoc_other p [] a h = ground (arith, h)
find_one-snoc_other p (x ∷ xs) a h = ground (arith, find_one-snoc_other p xs a h)

-- The row of another owner stays as it is, since it has another id.
updated_other :
    (a o : Uuid) (t u : BurnScopeType) (i j ttl : ℕ) (now : Date) (s : List BurnSetting)
    (x : BurnSetting) (found : Option BurnSetting)
    → (o == a) ≡ false
    → IsDistinct (ids_of s)
    → find_one (setting_of o u j) s ≡ some x
    → find_one (setting_of a t i) s ≡ found
    → Option.map (λ y. if setting_is x.id y then set_ttl ttl now y else y) found ≡ found
updated_other a o t u i j ttl now s x none n d e f = refl
updated_other a o t u i j ttl now s x (some y) n d e f = elim (Bool-cases (setting_is x.id y)) [
  | inl same ↦
      let row : y ≡ x =
        find_one-by_key (λ (s : BurnSetting). s.id) (setting_of a t i) (setting_of o u j) s y x d f
          e (ground (arith, same)) in
      let mine = find_one-passes (setting_of a t i) s y f in
      let other : setting_of o u j y ≡ true =
        subst (λ z. setting_of o u j z ≡ true) (sym row)
          (find_one-passes (setting_of o u j) s x e) in
      absurd (ground (arith, other, setting_of-other a o t u i j y n mine))
  | inr same ↦ rw same refl
]

upsert_found-other :
    (a o : Uuid) (t u : BurnScopeType) (i j ttl uuid : ℕ) (now : Date) (s : List BurnSetting)
    (existing : Option BurnSetting)
    → (o == a) ≡ false
    → IsDistinct (ids_of s)
    → find_one (setting_of o u j) s ≡ existing
    → find_one (setting_of a t i) (upsert_found s now (new_setting uuid now o u j ttl) existing)
      ≡ find_one (setting_of a t i) s
unfolding setting_of
upsert_found-other a o t u i j ttl uuid now s none n d e =
    find_one-snoc_other (setting_of a t i) s (new_setting uuid now o u j ttl) (ground (arith, n))
upsert_found-other a o t u i j ttl uuid now s (some x) n d e =
    find_one-update (setting_of a t i) (setting_is x.id) (set_ttl ttl now) s (λ _. refl)
    ∙ updated_other a o t u i j ttl now s x (find_one (setting_of a t i) s) n d e refl

Write-other :
    (db : Db) (a o : Uuid) (s s' : List BurnSetting) (t : BurnScopeType) (i : Uuid)
    → Write db o s s'
    → (o == a) ≡ false
    → IsSettings s
    → find_own s' a t i ≡ find_own s a t i
unfolding find_own clear_for_user clear_for_conversation upsert
Write-other db a o s s' t i (for_user uuid now j ttl _ _ fresh h) n k =
    let (l, e) = set_for_user-eq-ok uuid s db now o j ttl s' h in
    subst (λ r. find_one (setting_of a t i) r ≡ find_one (setting_of a t i) s) (sym e)
      (upsert_found-other a o t user_scope i j ttl uuid now s _ n k.distinct refl)
Write-other db a o s s' t i (for_conversation uuid now j ttl _ _ fresh h) n k =
    let (l, e) = set_for_conversation-eq-ok uuid s db now o j ttl s' h in
    subst (λ r. find_one (setting_of a t i) r ≡ find_one (setting_of a t i) s) (sym e)
      (upsert_found-other a o t conversation_scope i j ttl uuid now s _ n k.distinct refl)
Write-other db a o s s' t i (clear_user j _) n k =
    find_one-delete_other (setting_of a t i) (setting_of o user_scope j) s
      (λ x p. setting_of-other a o t user_scope i j x n p)
Write-other db a o s s' t i (clear_conversation j _) n k =
    find_one-delete_other (setting_of a t i) (setting_of o conversation_scope j) s
      (λ x p. setting_of-other a o t conversation_scope i j x n p)

own_for-same :
    (s s' : List BurnSetting) (a : Uuid) (c : Option Counterpart)
    → ((t : BurnScopeType) (i : Uuid) → find_own s' a t i ≡ find_own s a t i)
    → own_for s' a c ≡ own_for s a c
own_for-same s s' a none h = refl
own_for-same s s' a (some c) h = h user_scope c.user_id

resolve_member-same :
    (s s' : List BurnSetting) (db : Db) (a : Uuid) (conv : Conversation)
    → ((t : BurnScopeType) (i : Uuid) → find_own s' a t i ≡ find_own s a t i)
    → resolve_member s' db a conv ≡ resolve_member s db a conv
unfolding resolve_member
resolve_member-same s s' db a conv h =
    let k = own_for-same s s' a (find_counterpart db conv.id a) h in
    cc (k, h conversation_scope conv.id)

pub resolve-same :
    (s s' : List BurnSetting) (db : Db) (a c : Uuid)
    → ((t : BurnScopeType) (i : Uuid) → find_own s' a t i ≡ find_own s a t i)
    → resolve_for_conversation s' db a c ≡ resolve_for_conversation s db a c
unfolding resolve_for_conversation
resolve-same s s' db a c h = elim (Option-cases (find_one (conversation_is c) db.conversations)) [
  | inl e ↦ rw e refl
  | inr (conv, e) ↦ ground (arith, e, resolve_member-same s s' db a conv h)
]

-- Writes of the other users, one after the other.
pub data OthersWrites (a : Uuid) : List BurnSetting → List BurnSetting → Type 0 where
  stop : (s : List BurnSetting) → OthersWrites a s s
  step :
      (db : Db) (o : Uuid) (s s' s'' : List BurnSetting)
      → (o == a) ≡ false
      → Write db o s s'
      → OthersWrites a s' s''
      → OthersWrites a s s''

OthersWrites-same :
    (a : Uuid) (s s' : List BurnSetting) (t : BurnScopeType) (i : Uuid)
    → OthersWrites a s s'
    → IsSettings s
    → find_own s' a t i ≡ find_own s a t i
OthersWrites-same a s s' t i (stop _) k = refl
OthersWrites-same a s s' t i (step db o _ r _ n w ws) k =
    OthersWrites-same a r s' t i ws (Write-IsSettings db o s r w k)
    ∙ Write-other db a o s r t i w n k

-- However the other users set and clear their ttls, what a user's messages take in a conversation
-- and what the user is shown stay the same.
pub OthersWrites-resolve :
    (a : Uuid) (s s' : List BurnSetting) (db : Db) (conversation_id : Uuid)
    → IsSettings s
    → OthersWrites a s s'
    → resolve_for_conversation s' db a conversation_id
      ≡ resolve_for_conversation s db a conversation_id
OthersWrites-resolve a s s' db c k w =
    resolve-same s s' db a c (λ t i. OthersWrites-same a s s' t i w k)

-- The ttl within the limits, or the default of the user's profile.
abbrev pub IsEffective : BurnSettingResolution → Option ℕ → Type 0
IsEffective r none = r.global_default_seconds ≡ none
IsEffective r (some t) = IsBurnTtl t ⊎ (r.global_default_seconds ≡ some t)

resolution-IsEffective :
    (conv : Conversation) (d : Option ℕ) (c : Option Counterpart) (src : BurnTtlSource)
    (found : Option BurnSetting) (p : BurnSetting → Bool) (s : List BurnSetting)
    → (found ≡ none) ⊎ (find_one p s ≡ found)
    → All HasBurnTtl s
    → IsEffective
        (resolution conv d c src found)
        (resolution conv d c src found).effective_ttl_seconds
resolution-IsEffective conv none c src none p s h k = refl
resolution-IsEffective conv (some t) c src none p s h k = inr refl
resolution-IsEffective conv d c src (some x) p s (inl e) k = absurd (ground arith)
resolution-IsEffective conv d c src (some x) p s (inr e) k = inl (All-find HasBurnTtl p s x k e)

own_for-found :
    (s : List BurnSetting) (a : Uuid) (c : Option Counterpart)
    → (p : BurnSetting → Bool) × ((own_for s a c ≡ none) ⊎ (find_one p s ≡ own_for s a c))
unfolding find_own
own_for-found s a none = (λ _. true, inl refl)
own_for-found s a (some c) = (setting_of a user_scope c.user_id, inr refl)

resolve_member-IsEffective :
    (s : List BurnSetting) (db : Db) (a : Uuid) (conv : Conversation)
    → All HasBurnTtl s
    → IsEffective (resolve_member s db a conv) (resolve_member s db a conv).effective_ttl_seconds
unfolding resolve_member find_own
resolve_member-IsEffective s db a conv k =
    if_cases (λ (r : BurnSettingResolution). IsEffective r r.effective_ttl_seconds)
      (is_private conv.type) _ _
      (λ _.
        let (p, f) = own_for-found s a (find_counterpart db conv.id a) in
        resolution-IsEffective conv (get_global_default db a) (find_counterpart db conv.id a)
          contact_setting (own_for s a (find_counterpart db conv.id a)) p s f k)
      (λ _.
        resolution-IsEffective conv (get_global_default db a) none conversation_setting _
          (setting_of a conversation_scope conv.id) s (inr refl) k)

-- After any writes from the empty table on, the ttl that a user's messages take in a conversation
-- lies between a second and thirty days or is the default of the user's profile; there is none
-- only if the profile has none.
pub resolve_for_conversation-IsEffective :
    (s : List BurnSetting) (db : Db) (a c : Uuid) (r : BurnSettingResolution)
    → Writes [] s
    → resolve_for_conversation s db a c ≡ ok r
    → IsEffective r r.effective_ttl_seconds
unfolding resolve_for_conversation
resolve_for_conversation-IsEffective s db a c r w h =
    let (conv, e, f) =
      >>=-eq-ok
        (or_throw (find_one (conversation_is c) db.conversations) (not_found conversation_missing))
        (λ x. assert_member db c a >>= (λ _. ok (resolve_member s db a x))) h in
    let (m, g, i) = >>=-eq-ok (assert_member db c a) (λ _. ok (resolve_member s db a conv)) f in
    let same : resolve_member s db a conv ≡ r = cc i in
    subst (λ (x : BurnSettingResolution). IsEffective x x.effective_ttl_seconds) same
      (resolve_member-IsEffective s db a conv (Writes-IsSettings s w).limited)
