-- ===== src/Push/Rules.antt =====
-- A notification goes to the members that are offline, and tells nothing of a secret message.
use fenxin.Prelude.{
  has-select_and, ◌≡◌, refl, ap, subst, ◌∙◌, inl, inr, arith, ◌==◌, Bool, true, false, not, ◌&&◌,
  ◌||◌, Option, none, some, List, [], ◌∷◌, has, map, is_some, select_where, exists_where,
  Bool-cases,
}
use fenxin.Entities.{Uuid, Message, Device, Db}
use fenxin.Push.{
  Notice, Push, build_content, is_online_device, pick_offline, push_to, notify_new_message,
}

-- What of a message is not its content.
pub record SameEnvelope (m n : Message) : Type 0 where
  pub id : m.id ≡ n.id
  pub conversation_id : m.conversation_id ≡ n.conversation_id
  pub sender_id : m.sender_id ≡ n.sender_id
  pub type : m.type ≡ n.type

-- A message that burns or is encrypted.
abbrev pub is_secret : Message → Bool
is_secret m = is_some m.burn_ttl_seconds || m.is_encrypted

build_content-secret :
    (db : Db) (m n : Message)
    → SameEnvelope m n
    → is_secret m ≡ true
    → is_some m.burn_ttl_seconds ≡ is_some n.burn_ttl_seconds
    → m.is_encrypted ≡ n.is_encrypted
    → build_content db m ≡ build_content db n
unfolding build_content
build_content-secret db m n k h e f = ground (arith, k.sender_id, k.conversation_id, h, e, f)

push_to-same :
    (m n : Message) (notice notice' : Notice) (ids : List Uuid)
    → SameEnvelope m n
    → notice ≡ notice'
    → push_to m notice ids ≡ push_to n notice' ids
push_to-same m n a b [] k e = refl
push_to-same m n a b (x ∷ xs) k e = cc (k.id, k.conversation_id, k.type, e)

-- The notification of a message that burns or is encrypted does not depend on its content, its file
-- or its cipher text: two such messages that agree on the id, the conversation, the sender, the
-- type and these two marks give the same call of the provider.
pub notify_new_message-secret :
    (enabled : Bool) (db : Db) (m n : Message) (member_ids : List Uuid) (sender_id : Uuid)
    → SameEnvelope m n
    → is_secret m ≡ true
    → is_some m.burn_ttl_seconds ≡ is_some n.burn_ttl_seconds
    → m.is_encrypted ≡ n.is_encrypted
    → notify_new_message enabled db m member_ids sender_id
      ≡ notify_new_message enabled db n member_ids sender_id
unfolding notify_new_message
notify_new_message-secret false db m n ids s k h e f = refl
notify_new_message-secret true db m n ids s k h e f =
    push_to-same m n _ _ (pick_offline db (select_where (λ id. not (id == s)) ids)) k
      (build_content-secret db m n k h e f)

abbrev pub is_online_of : Uuid → Device → Bool
is_online_of u d = d.user_id == u && d.is_online

abbrev pub pushed_ids : Option Push → List Uuid
pushed_ids none = []
pushed_ids (some p) = p.user_ids

push_to-ids :
    (m : Message) (notice : Notice) (ids : List Uuid) → pushed_ids (push_to m notice ids) ≡ ids
push_to-ids m notice [] = refl
push_to-ids m notice (x ∷ xs) = refl

has-online :
    (u : Uuid) (ids : List Uuid) (ds : List Device)
    → has u ids ≡ true
    → has u (map (λ (d : Device). d.user_id) (select_where (is_online_device ids) ds))
      ≡ exists_where (is_online_of u) ds
unfolding has select_where exists_where
has-online u ids [] h = refl
has-online u ids (d ∷ ds) h = elim (Bool-cases (d.user_id == u)) [
  | inl e ↦
      let same : has d.user_id ids ≡ true = subst (λ x. has x ids ≡ true) (ground arith) h in
      ground (arith, e, same, has-online u ids ds h)
  | inr e ↦ ground (arith, e, has-online u ids ds h)
]

-- A message is pushed to exactly the members that are not the sender and have no device online, if
-- the provider is enabled; otherwise to nobody.
pub notify_new_message_iff :
    (enabled : Bool) (db : Db) (m : Message) (member_ids : List Uuid) (sender_id u : Uuid)
    → has u (pushed_ids (notify_new_message enabled db m member_ids sender_id)) ≡ (
        enabled
        && (has u member_ids
            && not (u == sender_id)
            && not (exists_where (is_online_of u) db.devices)))
unfolding notify_new_message pick_offline has
notify_new_message_iff false db m ids s u = refl
notify_new_message_iff true db m ids s u =
    let others = select_where (λ id. not (id == s)) ids in
    let online =
      map (λ (d : Device). d.user_id) (select_where (is_online_device others) db.devices) in
    let pushed : has u (pushed_ids (push_to m (build_content db m) (pick_offline db others)))
        ≡ (has u others && not (has u online)) =
      ap (has u) (push_to-ids m (build_content db m) (pick_offline db others))
      ∙ has-select_and u (λ id. not (has id online)) others in
    let candidate = has-select_and u (λ id. not (id == s)) ids in
    elim (Bool-cases (has u others)) [
      | inl t ↦ ground (arith, pushed, candidate, t, has-online u others db.devices t)
      | inr t ↦ ground (arith, pushed, candidate, t)
    ]
