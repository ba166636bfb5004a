-- ===== src/Login/Links.antt =====
-- The token of a link that is sent by mail (ResetPasswordPage.tsx, InviteAcceptPage.tsx).
use bv_orchestrator.Login.Forms.{path_segments, extract_token}
use bv_orchestrator.Common.{
  nat_eq, string_eq, ◌+++◌, is_empty, split, String, ◌≡◌, refl, true, false, Option, some, [], ◌∷◌,
  eq_refl,
}
use text.Mathlib.TextLemmas.{nil-append}
use bv_orchestrator.Common.Separators.{
  lacks, lacks-append, split_from-lacks, split_from_at, split-lacks,
}
use bv_orchestrator.Common.{
  nat_eq, string_eq, ◌+++◌, is_empty, split, String, ◌≡◌, refl, true, false, Option, some, [], ◌∷◌,
  eq_refl,
}

-- the hash of a link to a page, with a token
abbrev pub link : String → String → String
link page t = String.◌∷◌ "#" (String.◌∷◌ "/" (page +++ String.◌∷◌ "/" t))

split-link :
    (page t : String)
    → lacks b'?' page ≡ true
    → lacks b'?' t ≡ true
    → split b'?' (link page t) ≡ link page t ∷ []
unfolding lacks
split-link page t p q =
    split-lacks b'?' (link page t) (lacks-append b'?' page (String.◌∷◌ "/" t) p q)

segments_of_link :
    (page t : String)
    → lacks b'/' page ≡ true
    → lacks b'/' t ≡ true
    → is_empty page ≡ false
    → is_empty t ≡ false
    → path_segments (link page t) ≡ page ∷ t ∷ []
unfolding split lacks path_segments
segments_of_link page t p q some_page some_t =
    rw
      (
        split_from_at b'/' "" page "/" t p refl,
        nil-append page,
        split_from-lacks b'/' "" t q,
        nil-append t,
        some_page,
        some_t,
      )
      refl

-- A link to a page, with a token that has no slash and no question mark, gives back that token.
extract_token-link :
    (query_token : String → Option String) (page t : String)
    → lacks b'?' page ≡ true
    → lacks b'/' page ≡ true
    → is_empty page ≡ false
    → lacks b'?' t ≡ true
    → lacks b'/' t ≡ true
    → is_empty t ≡ false
    → extract_token query_token page (link page t) ≡ some t
unfolding extract_token
extract_token-link query_token page t p p' some_page q q' some_t =
    rw (split-link page t p q, segments_of_link page t p' q' some_page some_t, eq_refl page) refl
