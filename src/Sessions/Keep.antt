-- ===== src/Sessions/Keep.antt =====
-- The invariant of the cache, and the shapes of writes that keep it.
use fenxin.Prelude.{
  ◌≡◌, refl, ◌∙◌, ap, inl, inr, Bool, false, ◌&&◌, some, List, [], ◌∷◌, ◌++◌, map, arith, ◌==◌, All,
  All-imply, has, IsDistinct, map-update_key, delete-IsDistinct, snoc-IsDistinct, exists_where,
  update_where, delete_where, Bool-cases,
}
use fenxin.Entities.{Uuid, AppUser, Device, Db, user_is, device_is}
use fenxin.Result.{ok}
use fenxin.AuthCache.{CachedDevice, AuthContext, entry_is, is_entry_of, invalidate}
use fenxin.Guard.{cached_user, cached_device, check_context}
use fenxin.Guard.Context.{IsCurrent, IsCoherent}
use fenxin.Auth.{Server, update_user, forget_user}
use fenxin.Sessions.{with_db}
use fenxin.Sessions.Stable.{check_context-columns, users-kept, devices-kept}

abbrev pub ids_of : List Device → List Uuid
ids_of devices = map (λ (d : Device). d.id) devices

-- Each entry of the cache is what the database would give now, but for the devices that may have
-- been forced offline, and device ids are keys.
pub record IsSound (forced : Uuid → Bool) (s : Server) : Type 0 where
  pub coherent : IsCoherent forced s.db s.cache
  pub keyed : IsDistinct (ids_of s.db.devices)

All-deleted :
    {A : Type 0} (P Q : A → Type 0) (q : A → Bool) (xs : List A)
    → ((a : A) → q a ≡ false → P a → Q a)
    → All P xs
    → All Q (delete_where q xs)
unfolding delete_where
All-deleted P Q q [] h k = tt
All-deleted P Q q (x ∷ xs) h k = elim (Bool-cases (q x)) [
  | inl t ↦ rw t (All-deleted P Q q xs h k.1)
  | inr t ↦ rw t (h x t k.0, All-deleted P Q q xs h k.1)
]

-- A write that keeps every context that is given.
pub write-IsSound :
    {forced : Uuid → Bool} (s : Server) (db : Db)
    → ((u d : Uuid) (context : AuthContext)
        → check_context s.db u d ≡ ok context
        → check_context db u d ≡ ok context)
    → IsDistinct (ids_of db.devices)
    → IsSound forced s
    → IsSound forced (with_db s db)
write-IsSound {forced} s db h keyed sound = record {
  coherent =
      All-imply (IsCurrent forced s.db) (IsCurrent forced db) s.cache
        (λ e k. elim k [ inl f ↦ inl f | inr c ↦ inr (h e.user_id e.device_id e.context c) ])
        sound.coherent;
  keyed = keyed;
}

-- A write that changes contexts of one user only, whose entries are then forgotten.
pub forget_user-IsSound :
    {forced : Uuid → Bool} (s : Server) (id : Uuid) (db : Db)
    → ((u d : Uuid) → (u == id) ≡ false → check_context db u d ≡ check_context s.db u d)
    → IsDistinct (ids_of db.devices)
    → IsSound forced s
    → IsSound forced (forget_user id (with_db s db))
unfolding invalidate
forget_user-IsSound {forced} s id db h keyed sound = record {
  coherent =
      All-deleted (IsCurrent forced s.db) (IsCurrent forced db) (is_entry_of id) s.cache
        (λ e t k. elim k [ inl f ↦ inl f | inr c ↦ inr (h e.user_id e.device_id t ∙ c) ])
        sound.coherent;
  keyed = keyed;
}

-- A write that changes the context of one device only, whose entry is then forgotten.
pub forget_device-IsSound :
    {forced : Uuid → Bool} (s : Server) (user_id device_id : Uuid) (db : Db)
    → ((u d : Uuid) (context : AuthContext)
        → (u == user_id && d == device_id) ≡ false
        → check_context s.db u d ≡ ok context
        → check_context db u d ≡ ok context)
    → IsDistinct (ids_of db.devices)
    → IsSound forced s
    → IsSound forced
        (record { db = db; cache = (invalidate s.cache (some user_id) (some device_id)).0 })
unfolding invalidate
forget_device-IsSound {forced} s user_id device_id db h keyed sound = record {
  coherent =
      All-deleted (IsCurrent forced s.db) (IsCurrent forced db) (entry_is user_id device_id) s.cache
        (λ e t k. elim k [ inl f ↦ inl f | inr c ↦ inr (h e.user_id e.device_id e.context t c) ])
        sound.coherent;
  keyed = keyed;
}

-- The keys of the devices.
pub ids-update :
    (q : Device → Bool) (f : Device → Device) (ds : List Device)
    → ((x : Device) → (f x).id ≡ x.id)
    → ids_of (update_where q f ds) ≡ ids_of ds
ids-update q f ds h = map-update_key (λ (d : Device). d.id) q f ds h

pub delete-IsKeyed :
    (q : Device → Bool) (ds : List Device)
    → IsDistinct (ids_of ds)
    → IsDistinct (ids_of (delete_where q ds))
delete-IsKeyed q ds h = delete-IsDistinct (λ (d : Device). d.id) q ds h

has-ids : (a : Uuid) (ds : List Device) → has a (ids_of ds) ≡ exists_where (device_is a) ds
unfolding has exists_where
has-ids a [] = refl
has-ids a (x ∷ ds) = ground (arith, has-ids a ds)

pub append-IsKeyed :
    (ds : List Device) (d : Device)
    → exists_where (device_is d.id) ds ≡ false
    → IsDistinct (ids_of ds)
    → IsDistinct (ids_of (ds ++ d ∷ []))
append-IsKeyed ds d fresh h =
    snoc-IsDistinct (λ (d : Device). d.id) ds d h (has-ids d.id ds ∙ fresh)

-- Updates that keep the columns which the guard reads.
pub update_user-IsSound :
    {forced : Uuid → Bool} (s : Server) (id : Uuid) (f : AppUser → AppUser)
    → ((x : AppUser) → cached_user (f x) ≡ cached_user x)
    → IsSound forced s
    → IsSound forced (with_db s (update_user id f s.db))
unfolding update_user
update_user-IsSound s id f h sound =
    write-IsSound s (update_user id f s.db)
      (λ u d context k.
        check_context-columns s.db (update_user id f s.db) u d
          (users-kept (user_is id) f s.db.users u h) refl
        ∙ k)
      sound.keyed sound

pub update_devices-IsSound :
    {forced : Uuid → Bool} (s : Server) (q : Device → Bool) (f : Device → Device)
    → ((x : Device) → cached_device (f x) ≡ cached_device x)
    → IsSound forced s
    → IsSound forced (with_db s (record s.db { devices = update_where q f s.db.devices }))
update_devices-IsSound s q f h sound =
    let db = record s.db { devices = update_where q f s.db.devices } in
    write-IsSound s db
      (λ u d context k.
        check_context-columns s.db db u d refl (devices-kept q f s.db.devices u d h) ∙ k)
      (rw (ids-update q f s.db.devices (λ x. ap (λ (c : CachedDevice). c.id) (h x))) sound.keyed)
      sound
