-- ===== src/Avatar/Tests.antt =====
-- Two avatars (Avatar.tsx).
use bv_orchestrator.Avatar.{AvatarUser, initial_from, color_of}
use bv_orchestrator.Common.{nat_eq, string_eq, ◌≡◌, refl, none, some}

abbrev ann : AvatarUser
ann = record {
  id = some "7";
  username = "ann.smith";
  display_name = some "  ";
  full_name = none;
  avatar_url = none;
}

letter_test : (initial_from ann ≡ "A") × (color_of ann ≡ some "#ef4444")
unfolding initial_from color_of
letter_test = (refl, refl)
