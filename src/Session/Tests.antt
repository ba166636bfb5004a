-- ===== src/Session/Tests.antt =====
-- The provider of the session on concrete runs (auth.tsx).
use bv_orchestrator.Json.{Json, str, obj, end, prop}
use bv_orchestrator.Route.{authenticated, unauthenticated}
use bv_orchestrator.Session.{
  Session, reply, Event, session_set, fetched, run, initial, set_authenticated_session,
  refresh_start, refresh_reply,
}
use bv_orchestrator.Session.Refines.{account, follow, run-refines}
use bv_orchestrator.Session.Laws.{IsCoherent, run-IsCoherent}
use bv_orchestrator.Session.Refresh.{IsAccepted, refresh_reply_outcome, refresh_after_reload}
use bv_orchestrator.Common.{nat_eq, string_eq, ◌≡◌, refl, ◌⊎◌, none, some, List, [], ◌∷◌}

abbrev answer : Json
answer = obj (prop "user" (obj (prop "username" (str "ann") end)) end)

abbrev visit : List Event
visit = session_set "t1" (some answer) ∷ fetched "/api/auth/me" (reply 401 none) ∷ []

run-IsCoherent_example : IsCoherent (run (initial [] "#/") visit)
run-IsCoherent_example = run-IsCoherent [] "#/" visit

abbrev fresh : Session
fresh = initial [] "#/"

refresh_reply_outcome_example :
    (IsAccepted (reply 401 none)
      × ((refresh_reply "t1" (reply 401 none) fresh).status ≡ authenticated)
      × ((refresh_reply "t1" (reply 401 none) fresh).token ≡ some "t1"))
    ⊎ ((¬ IsAccepted (reply 401 none))
        × ((refresh_reply "t1" (reply 401 none) fresh).status ≡ unauthenticated)
        × ((refresh_reply "t1" (reply 401 none) fresh).token ≡ none))
refresh_reply_outcome_example = refresh_reply_outcome "t1" (reply 401 none) fresh

refresh_after_reload_example :
    let signed_in = set_authenticated_session "t1" (some answer) fresh in
    let (started, sent) = refresh_start (initial signed_in.local signed_in.hash) in
    (sent ≡ some "t1") × (refresh_reply "t1" (reply 200 (some answer)) started ≡ signed_in)
refresh_after_reload_example = refresh_after_reload "t1" answer 200 fresh refl refl

run-refines_example : account (run fresh visit) ≡ follow (account fresh) visit
run-refines_example = run-refines visit fresh
