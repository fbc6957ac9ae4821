-- ===== src/Destroy/Attachments.antt =====
-- `deleteAttachments` of src/modules/message/destroy.service.ts: a stored file is deleted in the
-- object store if its address is a URL, and otherwise under its base name in the upload folder.
use mathlib.Core.List.{reverse-cons}
use fenxin.Prelude.{
  ℕ, ◌≡◌, refl, Bool, true, false, ◌&&◌, ◌||◌, Option, none, some, List, [], ◌∷◌, ◌++◌, ◌==◌,
  if◌then◌else◌, arith, All, has, reverse, ap, ◌∙◌, ◌≢◌, if_cases, All-append,
}
use fenxin.Entities.{Text, Message}
use fenxin.Result.{Effect, delete_by_url, unlink}
use fenxin.Burn.{lower_case}

-- The text begins with the letters, compared without case.
pub starts_with : Text → Text → Bool
starts_with [] s = true
starts_with (c ∷ cs) [] = false
starts_with (c ∷ cs) (d ∷ s) = lower_case c == lower_case d && starts_with cs s

-- /^https?:/i
abbrev pub is_url : Text → Bool
is_url s =
    starts_with (b'h' ∷ b't' ∷ b't' ∷ b'p' ∷ b':' ∷ []) s
    || starts_with (b'h' ∷ b't' ∷ b't' ∷ b'p' ∷ b's' ∷ b':' ∷ []) s

-- `s.split(c)[0]`
pub split_head : ℕ → Text → Text
split_head c [] = []
split_head c (d ∷ s) = let rest = split_head c s in if d == c then [] else d ∷ rest

pub drop_slashes : Text → Text
drop_slashes [] = []
drop_slashes (c ∷ s) = let rest = drop_slashes s in if c == b'/' then rest else c ∷ s

-- `path.basename`: slashes at the end are ignored.
unfoldable pub basename : Text → Text
unfolding split_head drop_slashes
basename s = reverse (split_head b'/' (drop_slashes (reverse s)))

-- One address; a base name that is empty is skipped.
abbrev pub unlink_base : Text → List Effect
unlink_base [] = []
unlink_base (c ∷ s) = unlink (c ∷ s) ∷ []

unfoldable pub delete_attachment : Text → List Effect
unfolding starts_with basename split_head
delete_attachment u =
    if is_url u
    then delete_by_url u ∷ []
    else unlink_base (basename (split_head b'#' (split_head b'?' u)))

abbrev pub delete_optional : Option Text → List Effect
delete_optional none = []
delete_optional (some []) = []
delete_optional (some (c ∷ s)) = delete_attachment (c ∷ s)

unfoldable pub delete_attachments : Message → List Effect
unfolding delete_attachment
delete_attachments m = delete_optional m.file_url ++ delete_optional m.file_original_url

-- The name that is unlinked is not empty and has no slash.
abbrev pub IsConfined : Effect → Type 0
IsConfined (unlink name) = (has b'/' name ≡ false) × (name ≢ [])
IsConfined _ = Unit

has-split_head : (c : ℕ) (s : Text) → has c (split_head c s) ≡ false
unfolding split_head has
has-split_head c [] = refl
has-split_head c (d ∷ s) = ground (arith, has-split_head c s)

has-append : (c : ℕ) (s t : Text) → has c (s ++ t) ≡ (has c s || has c t)
unfolding has
has-append c [] t = refl
has-append c (d ∷ s) t = ground (arith, has-append c s t)

has-reverse : (c : ℕ) (s : Text) → has c (reverse s) ≡ has c s
unfolding has
has-reverse c [] = refl
has-reverse c (d ∷ s) =
    ground
      (arith, ap (has c) (reverse-cons d s), has-append c (reverse s) (d ∷ []), has-reverse c s)

has-basename : (s : Text) → has b'/' (basename s) ≡ false
unfolding basename
has-basename s =
    has-reverse b'/' (split_head b'/' (drop_slashes (reverse s)))
    ∙ has-split_head b'/' (drop_slashes (reverse s))

delete_attachment-IsConfined : (u : Text) → All IsConfined (delete_attachment u)
unfolding delete_attachment
delete_attachment-IsConfined u =
    if_cases (All IsConfined) (is_url u) _ _ (λ _. (tt, tt))
      (λ _.
        unlinked (basename (split_head b'#' (split_head b'?' u)))
          (has-basename (split_head b'#' (split_head b'?' u))))
  where
    unlinked : (s : Text) → has b'/' s ≡ false → All IsConfined (unlink_base s)
    unlinked [] h = tt
    unlinked (c ∷ s) h = ((h, λ e. cc), tt)

delete_optional-IsConfined : (o : Option Text) → All IsConfined (delete_optional o)
delete_optional-IsConfined none = tt
delete_optional-IsConfined (some []) = tt
delete_optional-IsConfined (some (c ∷ s)) = delete_attachment-IsConfined (c ∷ s)

-- Whatever addresses a message holds, each local deletion is of a non-empty name without a slash,
-- so of an entry of the upload folder.
pub delete_attachments-IsConfined : (m : Message) → All IsConfined (delete_attachments m)
unfolding delete_attachments
delete_attachments-IsConfined m =
    All-append IsConfined (delete_optional m.file_url) _ (delete_optional-IsConfined m.file_url)
      (delete_optional-IsConfined m.file_original_url)
