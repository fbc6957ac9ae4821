-- ===== src/Group/Owned.antt =====
-- The invariant of a group: one owner, who is a member, and the number of members.
use fenxin.Prelude.{
  ◌+◌, ◌≡◌, refl, ap, inl, inr, Bool, true, false, not, ◌&&◌, ◌||◌, some, List, [], ◌∷◌, ◌++◌,
  arith, ◌==◌, if◌then◌else◌, All, length, map, find_one, exists_where, count_where, update_where,
  delete_where, select_where, has, IsDistinct, find_one-update_found, find_one-passes, Bool-cases,
  if_cases,
}
use fenxin.Entities.{
  Uuid, Conversation, ConversationMember, Db, is_owner, is_group, conversation_is, member_is,
  in_conversation,
}

-- A member row of the conversation has the owner's role exactly if it is the owner's.
abbrev pub HasRole : Uuid → Uuid → ConversationMember → Type 0
HasRole c o m =
    (in_conversation c m && not (is_owner m.role)) ≡ (in_conversation c m && not (m.user_id == o))

abbrev pub ids_in : Uuid → List ConversationMember → List Uuid
ids_in c ms = map (λ (m : ConversationMember). m.user_id) (select_where (in_conversation c) ms)

-- The stored group `c`: `conv` is its row and `o` its owner. The rows with the role of an owner are
-- the owner's, the owner is a member, nobody has two rows, and `member_count` is the number of
-- member rows.
pub record IsGroup (db : Db) (c o : Uuid) : Type 0 where
  pub conv : Conversation
  pub stored : find_one (conversation_is c) db.conversations ≡ some conv
  pub grouped : is_group conv.type ≡ true
  pub owned : conv.owner_id ≡ some o
  pub roles : All (HasRole c o) db.members
  pub seated : exists_where (member_is c o) db.members ≡ true
  pub unique : IsDistinct (ids_in c db.members)
  pub counted : conv.member_count ≡ count_where (in_conversation c) db.members

pub count-append :
    {A : Type 0} (p : A → Bool) (xs ys : List A)
    → count_where p (xs ++ ys) ≡ count_where p xs + count_where p ys
unfolding count_where
count-append p [] ys = omega arith
count-append p (x ∷ xs) ys = ground (arith, count-append p xs ys)

pub exists-append :
    {A : Type 0} (p : A → Bool) (xs ys : List A)
    → exists_where p (xs ++ ys) ≡ (exists_where p xs || exists_where p ys)
unfolding exists_where
exists-append p [] ys = refl
exists-append p (x ∷ xs) ys = ground (arith, exists-append p xs ys)

pub count_update :
    {A : Type 0} (p q : A → Bool) (f : A → A) (xs : List A)
    → ((a : A) → p (f a) ≡ p a)
    → count_where p (update_where q f xs) ≡ count_where p xs
unfolding count_where update_where
count_update p q f [] h = refl
count_update p q f (x ∷ xs) h = ground (arith, h x, count_update p q f xs h)

pub exists-update :
    {A : Type 0} (p q : A → Bool) (f : A → A) (xs : List A)
    → ((a : A) → p (f a) ≡ p a)
    → exists_where p (update_where q f xs) ≡ exists_where p xs
unfolding exists_where update_where
exists-update p q f [] h = refl
exists-update p q f (x ∷ xs) h = ground (arith, h x, exists-update p q f xs h)

pub exists-delete_other :
    {A : Type 0} (p q : A → Bool) (xs : List A)
    → ((a : A) → p a ≡ true → q a ≡ false)
    → exists_where p (delete_where q xs) ≡ exists_where p xs
unfolding exists_where delete_where
exists-delete_other p q [] h = refl
exists-delete_other p q (x ∷ xs) h = ground (arith, h x, exists-delete_other p q xs h)

pub find-exists :
    {A : Type 0} (p : A → Bool) (xs : List A)
    → exists_where p xs ≡ true
    → (a : A) × (find_one p xs ≡ some a)
unfolding exists_where find_one
find-exists p [] h = absurd (ground arith)
find-exists p (x ∷ xs) h = elim (Bool-cases (p x)) [
  | inl e ↦ (x, rw e refl)
  | inr e ↦ let (a, f) = find-exists p xs (ground arith) in (a, rw e f)
]

-- The conversations table after `member_count` of the group has been set.
pub counted-stored :
    (c n : Uuid) (convs : List Conversation) (conv : Conversation)
    → find_one (conversation_is c) convs ≡ some conv
    → find_one
        (conversation_is c)
        (update_where (conversation_is c) (λ x. record x { member_count = n }) convs)
      ≡ some (record conv { member_count = n })
counted-stored c n convs conv e =
    find_one-update_found (conversation_is c) (conversation_is c)
      (λ x. record x { member_count = n }) convs conv (λ x. refl) e
      (find_one-passes (conversation_is c) convs conv e)

pub find_one-narrow :
    {A : Type 0} (p r : A → Bool) (xs : List A) (a : A)
    → find_one p xs ≡ some a
    → r a ≡ true
    → find_one (λ x. p x && r x) xs ≡ some a
unfolding find_one
find_one-narrow p r [] a e t = absurd (ground arith)
find_one-narrow p r (x ∷ xs) a e t = elim (Bool-cases (p x)) [
  | inl f ↦ (let same : x ≡ a = ground arith in ground (arith, ap r same))
  | inr f ↦ rw f (find_one-narrow p r xs a (ground arith) t)
]

pub All-update_to {κ} :
    {A : Type 0} (P Q : A → Type κ) (p : A → Bool) (f : A → A) (xs : List A)
    → ((a : A) → p a ≡ true → P a → Q (f a))
    → ((a : A) → p a ≡ false → P a → Q a)
    → All P xs
    → All Q (update_where p f xs)
unfolding update_where
All-update_to P Q p f [] h k all = tt
All-update_to P Q p f (x ∷ xs) h k all = (
  if_cases Q (p x) (f x) x (λ t. h x t all.0) (λ t. k x t all.0),
  All-update_to P Q p f xs h k all.1,
)

-- The user ids of the conversation's rows.
pub length-ids_in :
    (c : Uuid) (ms : List ConversationMember)
    → length (ids_in c ms) ≡ count_where (in_conversation c) ms
unfolding select_where count_where
length-ids_in c [] = refl
length-ids_in c (m ∷ ms) = ground (arith, length-ids_in c ms)

pub has-ids_in :
    (c u : Uuid) (ms : List ConversationMember)
    → has u (ids_in c ms) ≡ exists_where (member_is c u) ms
unfolding has select_where exists_where
has-ids_in c u [] = refl
has-ids_in c u (m ∷ ms) = ground (arith, has-ids_in c u ms)

pub ids_in-snoc :
    (c : Uuid) (ms : List ConversationMember) (m : ConversationMember)
    → ids_in c (ms ++ m ∷ [])
      ≡ (if in_conversation c m then ids_in c ms ++ m.user_id ∷ [] else ids_in c ms)
unfolding select_where
ids_in-snoc c [] m = ground arith
ids_in-snoc c (x ∷ ms) m = ground (arith, ids_in-snoc c ms m)

pub ids_in-update :
    (c : Uuid) (p : ConversationMember → Bool) (f : ConversationMember → ConversationMember)
    (ms : List ConversationMember)
    → ((m : ConversationMember)
        → (in_conversation c (f m) ≡ in_conversation c m) × ((f m).user_id ≡ m.user_id))
    → ids_in c (update_where p f ms) ≡ ids_in c ms
unfolding select_where update_where
ids_in-update c p f [] h = refl
ids_in-update c p f (m ∷ ms) h = ground (arith, (h m).0, (h m).1, ids_in-update c p f ms h)

has-delete :
    (c a : Uuid) (p : ConversationMember → Bool) (ms : List ConversationMember)
    → has a (ids_in c ms) ≡ false
    → has a (ids_in c (delete_where p ms)) ≡ false
unfolding has select_where delete_where
has-delete c a p [] h = refl
has-delete c a p (m ∷ ms) h = ground (arith, h, has-delete c a p ms)

pub ids_in-delete :
    (c : Uuid) (p : ConversationMember → Bool) (ms : List ConversationMember)
    → IsDistinct (ids_in c ms)
    → IsDistinct (ids_in c (delete_where p ms))
unfolding select_where delete_where
ids_in-delete c p [] h = tt
ids_in-delete c p (m ∷ ms) h = elim (Bool-cases (in_conversation c m)) [
  | inl e ↦
      let k : IsDistinct (m.user_id ∷ ids_in c ms) = rw e at h in
      let rest = ids_in-delete c p ms k.1 in
      if_cases (λ (xs : List ConversationMember). IsDistinct (ids_in c xs)) (p m)
        (delete_where p ms) (m ∷ delete_where p ms) (λ _. rest)
        (λ _. rw e (has-delete c m.user_id p ms k.0, rest))
  | inr e ↦
      let k : IsDistinct (ids_in c ms) = rw e at h in
      let rest = ids_in-delete c p ms k in
      if_cases (λ (xs : List ConversationMember). IsDistinct (ids_in c xs)) (p m)
        (delete_where p ms) (m ∷ delete_where p ms) (λ _. rest) (λ _. rw e rest)
]
