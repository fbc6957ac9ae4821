-- ===== src/Group/Saved.antt =====
-- Saving member rows under the unique key.
use fenxin.Prelude.{
  ◌≡◌, refl, ap, ◌∙◌, sym, subst, false, List, [], ◌∷◌, ◌++◌, arith, IsDistinct, IsDistinct-snoc,
  exists_where, if_cases,
}
use fenxin.Entities.{Uuid, ConversationMember, member_is, in_conversation}
use fenxin.Result.{ok}
use fenxin.Group.{save_members}
use fenxin.Group.Owned.{ids_in, has-ids_in, ids_in-snoc}

append_nil : {A : Type 0} (xs : List A) → xs ++ [] ≡ xs
append_nil [] = refl
append_nil (x ∷ xs) = ap (◌∷◌ x) (append_nil xs)

append_snoc : {A : Type 0} (xs ys : List A) (a : A) → (xs ++ a ∷ []) ++ ys ≡ xs ++ a ∷ ys
append_snoc [] ys a = refl
append_snoc (x ∷ xs) ys a = ap (◌∷◌ x) (append_snoc xs ys a)

save_members-step :
    (ms rows ms' : List ConversationMember) (r : ConversationMember)
    → save_members ms (r ∷ rows) ≡ ok ms'
    → (exists_where (member_is r.conversation_id r.user_id) ms ≡ false)
      × (save_members (ms ++ r ∷ []) rows ≡ ok ms')
unfolding save_members
save_members-step ms rows ms' r h = (ground arith, ground arith)

pub save_members-eq-ok :
    (ms rows ms' : List ConversationMember) → save_members ms rows ≡ ok ms' → ms' ≡ ms ++ rows
unfolding save_members
save_members-eq-ok ms [] ms' h = (let e : ms ≡ ms' = ground arith in sym e ∙ sym (append_nil ms))
save_members-eq-ok ms (r ∷ rows) ms' h =
    let (fresh, k) = save_members-step ms rows ms' r h in
    save_members-eq-ok (ms ++ r ∷ []) rows ms' k ∙ append_snoc ms rows r

-- A row that the unique key admits keeps the rows of the conversation distinct.
snoc-IsDistinct :
    (c : Uuid) (ms : List ConversationMember) (r : ConversationMember)
    → IsDistinct (ids_in c ms)
    → exists_where (member_is r.conversation_id r.user_id) ms ≡ false
    → IsDistinct (ids_in c (ms ++ r ∷ []))
snoc-IsDistinct c ms r d fresh = rw (ids_in-snoc c ms r) (
    if_cases IsDistinct (in_conversation c r) (ids_in c ms ++ r.user_id ∷ []) (ids_in c ms)
      (λ t.
        let same : r.conversation_id ≡ c = ground arith in
        let here : exists_where (member_is c r.user_id) ms ≡ false =
          subst (λ k. exists_where (member_is k r.user_id) ms ≡ false) same fresh in
        IsDistinct-snoc (ids_in c ms) r.user_id d (has-ids_in c r.user_id ms ∙ here))
      (λ _. d))

pub save_members-IsDistinct :
    (c : Uuid) (ms rows ms' : List ConversationMember)
    → save_members ms rows ≡ ok ms'
    → IsDistinct (ids_in c ms)
    → IsDistinct (ids_in c ms')
unfolding save_members
save_members-IsDistinct c ms [] ms' h d =
    (let e : ms ≡ ms' = ground arith in subst (λ xs. IsDistinct (ids_in c xs)) e d)
save_members-IsDistinct c ms (r ∷ rows) ms' h d =
    let (fresh, k) = save_members-step ms rows ms' r h in
    save_members-IsDistinct c (ms ++ r ∷ []) rows ms' k (snoc-IsDistinct c ms r d fresh)
