-- ===== src/BurnSettings/Sent.antt =====
-- The ttl that a message takes from the settings.
use fenxin.Prelude.{
  ℕ, ◌≡◌, refl, subst, sym, ◌∙◌, inl, inr, true, false, Option, none, some, List, [], ◌∷◌, ◌++◌,
  arith, Option-cases, find_one, find_one-update_found, find_one-delete, find_one-append,
  find_one-head, ==_refl,
}
use fenxin.Entities.{Uuid, Date, Db, Message, Conversation, is_private, conversation_is, member_is}
use fenxin.Result.{Outcome, ok, err}
use fenxin.Env.{Env}
use fenxin.Burn.{finite, normalize_burn_ttl}
use fenxin.Send.{SendParams, assert_member, send_message, commit_send, check_send}
use fenxin.Send.Stored.{send_message-eq-ok}
use fenxin.BurnSettings.{
  BurnScopeType, user_scope, conversation_scope, BurnSetting, setting_of, find_own, setting_is,
  set_ttl, new_setting, upsert_found, upsert, set_for_user, clear_for_user, same_scope,
}
use fenxin.BurnSettings.Resolve.{
  Counterpart, resolve_member, get_global_default, find_counterpart, resolve_for_conversation,
  resolve_ttl_for_send, with_ttl, post_message,
}
use fenxin.BurnSettings.Rows.{set_for_user-eq-ok, IsBurnTtl}

same_scope_refl : (t : BurnScopeType) → same_scope t t ≡ true
same_scope_refl user_scope = refl
same_scope_refl conversation_scope = refl

new_setting-passes :
    (uuid : Uuid) (now : Date) (o : Uuid) (t : BurnScopeType) (i ttl : ℕ)
    → setting_of o t i (new_setting uuid now o t i ttl) ≡ true
unfolding setting_of
new_setting-passes uuid now o t i ttl = ground (arith, same_scope_refl t, ==_refl o, ==_refl i)

-- The found setting has the written ttl.
abbrev pub HasTtl : ℕ → Option BurnSetting → Type 0
HasTtl ttl found = (s : BurnSetting) × (found ≡ some s) × (s.ttl_seconds ≡ ttl)

abbrev pub ttl_or : Option BurnSetting → Option ℕ → Option ℕ
ttl_or none d = d
ttl_or (some s) d = some s.ttl_seconds

upsert_found-HasTtl :
    (uuid : Uuid) (s : List BurnSetting) (now : Date) (o : Uuid) (t : BurnScopeType) (i ttl : ℕ)
    (existing : Option BurnSetting)
    → find_one (setting_of o t i) s ≡ existing
    → HasTtl ttl
        (find_one (setting_of o t i) (upsert_found s now (new_setting uuid now o t i ttl) existing))
unfolding setting_of
upsert_found-HasTtl uuid s now o t i ttl none e = (
  new_setting uuid now o t i ttl,
  find_one-append (setting_of o t i) s _ e
      ∙ find_one-head (setting_of o t i) _ (new_setting-passes uuid now o t i ttl),
  refl,
)
upsert_found-HasTtl uuid s now o t i ttl (some x) e = (
  set_ttl ttl now x,
  find_one-update_found (setting_of o t i) (setting_is x.id) (set_ttl ttl now) s x (λ _. refl) e
      (==_refl x.id),
  refl,
)

upsert-HasTtl :
    (uuid : Uuid) (s : List BurnSetting) (now : Date) (o : Uuid) (t : BurnScopeType) (i ttl : ℕ)
    → HasTtl ttl (find_own (upsert uuid s now o t i ttl) o t i)
unfolding find_own upsert
upsert-HasTtl uuid s now o t i ttl = upsert_found-HasTtl uuid s now o t i ttl _ refl

-- A post without a ttl is a send with the ttl of the settings; the sender who is no member gets
-- the same error from both.
post-resolved :
    (env : Env) (uuid : ℕ → Uuid) (s : List BurnSetting) (db : Db) (now : Date) (p : SendParams)
    (conv : Conversation) (ttl : Option ℕ)
    → p.burn_ttl_seconds ≡ none
    → p.destroy_at ≡ none
    → find_one (conversation_is p.conversation_id) db.conversations ≡ some conv
    → (resolve_member s db p.sender_id conv).effective_ttl_seconds ≡ ttl
    → post_message env uuid s db now p ≡ send_message env uuid db now (with_ttl p ttl)
unfolding post_message send_message check_send resolve_ttl_for_send resolve_for_conversation
    assert_member
post-resolved env uuid s db now p conv ttl h k e f =
    elim (Option-cases (find_one (member_is p.conversation_id p.sender_id) db.members)) [
      | inl g ↦ ground (arith, h, k, e, g)
      | inr (m, g) ↦ ground (arith, h, k, e, f, g)
    ]

resolved_private :
    (s : List BurnSetting) (db : Db) (o : Uuid) (conv : Conversation) (c : Counterpart)
    (found : Option BurnSetting)
    → is_private conv.type ≡ true
    → find_counterpart db conv.id o ≡ some c
    → find_own s o user_scope c.user_id ≡ found
    → (resolve_member s db o conv).effective_ttl_seconds ≡ ttl_or found (get_global_default db o)
unfolding resolve_member
resolved_private s db o conv c none h e f = ground (arith, h, e, f)
resolved_private s db o conv c (some x) h e f = ground (arith, h, e, f)

normalize_burn_ttl-whole :
    (t : ℕ) (now : Date)
    → IsBurnTtl t
    → normalize_burn_ttl (some (finite false t 0)) none now ≡ some t
unfolding normalize_burn_ttl
normalize_burn_ttl-whole t now h = ground arith

cleared :
    (s : List BurnSetting) (o i j : Uuid)
    → j ≡ i
    → find_own (clear_for_user s o i) o user_scope j ≡ none
unfolding find_own clear_for_user
cleared s o i j h =
    subst (λ x. find_one (setting_of o user_scope x) (clear_for_user s o i) ≡ none) (sym h)
      (find_one-delete (setting_of o user_scope i) s)

-- A post that succeeds stores the message, as the last row, with this ttl.
abbrev pub StoresTtl : Db → ℕ → Outcome Message → Type 0
StoresTtl db ttl (err e) = Unit
StoresTtl db ttl (ok d) =
    (d.value.burn_ttl_seconds ≡ some ttl) × (d.db.messages ≡ db.messages ++ d.value ∷ [])

send-StoresTtl :
    (env : Env) (uuid : ℕ → Uuid) (db : Db) (now : Date) (p : SendParams) (ttl : ℕ)
    (r : Outcome Message)
    → send_message env uuid db now p ≡ r
    → normalize_burn_ttl p.burn_ttl_seconds p.destroy_at now ≡ some ttl
    → StoresTtl db ttl r
unfolding commit_send
send-StoresTtl env uuid db now p ttl (err e) h t = tt
send-StoresTtl env uuid db now p ttl (ok d) h t =
    let (a, e) = send_message-eq-ok env uuid db now p d h in (rw e t, rw e refl)

-- A user who has set a ttl for a partner sends the messages of their private conversation with it:
-- a message posted without a ttl and a deadline is sent as one with that ttl, and where this
-- succeeds, the row that is stored holds exactly that ttl. Once the setting is cleared, such a
-- message is sent with the default of the user's profile.
pub set_for_user-post :
    (id : Uuid) (s s' : List BurnSetting) (db : Db) (now : Date) (o i ttl : ℕ) (env : Env)
    (uuid : ℕ → Uuid) (db' : Db) (later : Date) (p : SendParams) (conv : Conversation)
    (c : Counterpart)
    → set_for_user id s db now o i ttl ≡ ok s'
    → p.sender_id ≡ o
    → p.burn_ttl_seconds ≡ none
    → p.destroy_at ≡ none
    → find_one (conversation_is p.conversation_id) db'.conversations ≡ some conv
    → is_private conv.type ≡ true
    → find_counterpart db' conv.id o ≡ some c
    → c.user_id ≡ i
    → (post_message env uuid s' db' later p
        ≡ send_message env uuid db' later (with_ttl p (some ttl)))
      × StoresTtl db' ttl (post_message env uuid s' db' later p)
      × (post_message env uuid (clear_for_user s' o i) db' later p
          ≡ send_message env uuid db' later (with_ttl p (get_global_default db' o)))
set_for_user-post id s s' db now o i ttl env uuid db' later p conv c h sender none_set no_date found
      partner pair same =
    let (l, e) = set_for_user-eq-ok id s db now o i ttl s' h in
    let (x, f, g) = upsert-HasTtl id s now o user_scope i ttl in
    let own : find_own s' o user_scope c.user_id ≡ some x = cc (e, f, same) in
    let kept = resolved_private s' db' o conv c (some x) partner pair own in
    let gone : find_own (clear_for_user s' o i) o user_scope c.user_id ≡ none =
      cleared s' o i c.user_id same in
    let reset = resolved_private (clear_for_user s' o i) db' o conv c none partner pair gone in
    let as_sent =
      post-resolved env uuid s' db' later p conv (some ttl) none_set no_date found
        (cc (sender, kept, g)) in
    let whole =
      subst (λ d. normalize_burn_ttl (some (finite false ttl 0)) d later ≡ some ttl) (sym no_date)
        (normalize_burn_ttl-whole ttl later l) in
    (
      as_sent,
      send-StoresTtl env uuid db' later (with_ttl p (some ttl)) ttl _ (sym as_sent) whole,
      post-resolved env uuid (clear_for_user s' o i) db' later p conv (get_global_default db' o)
          none_set no_date found (cc (sender, reset)),
    )
