-- ===== src/Client/InSession.antt =====
-- Calls of api/ (those of Client.Operations) beside the session of auth.tsx, which share the token of localStorage.
use bv_orchestrator.Client.Operations.{Operation, call_of}
use bv_orchestrator.Client.Requests.{SendsProper, call-SendsProper}
use bv_orchestrator.Client.Outcomes.{perform-signed_out}
use bv_orchestrator.Client.{ApiRequest, ApiReply, perform}
use bv_orchestrator.Session.{Session, Event, run, initial}
use bv_orchestrator.Session.Laws.{IsCoherent, run-IsCoherent}
use bv_orchestrator.Route.{AuthStatus, authenticated, unauthenticated, loading}
use bv_orchestrator.Storage.{Item, text, json, Storage, get_item}
use bv_orchestrator.Json.{Json, to_text}
use bv_orchestrator.Common.{
  nat_eq, string_eq, if◌then◌else◌, Bool-cases, is_empty, String, ◌≡◌, refl, ◌⊎◌, inl, inr, Option,
  none, some, List,
}

-- `localStorage.getItem('token')`
abbrev pub item_text : Option Item → Option String
item_text none = none
item_text (some (text t)) = some t
item_text (some (json v)) = some (to_text v)

abbrev pub stored : Storage → Option String
stored m = item_text (get_item "token" m)

module _ (parse : String → String ⊎ Json) (server : ApiRequest → ApiReply) (op : Operation) where
  abbrev SendsToken : Storage → Option String → Type 0
  SendsToken m none = ⊥
  SendsToken m (some t) =
      if is_empty t
      then (perform server (call_of parse (stored m) op) ≡ inl "Not authenticated")
      else SendsProper op t (call_of parse (stored m) op).request

  -- what a call does in a session
  abbrev pub FitsSession : AuthStatus → Session → Type 0
  FitsSession authenticated s = SendsToken s.local s.token
  FitsSession unauthenticated s =
      perform server (call_of parse (stored s.local) op) ≡ inl "Not authenticated"
  FitsSession loading s = Unit

  sends_token :
      (m : Storage) (t : String) → get_item "token" m ≡ some (text t) → SendsToken m (some t)
  sends_token m t e = elim (Bool-cases (is_empty t)) [
    | inl empty ↦ rw (empty) (perform-signed_out parse server (stored m) op (rw (e) empty))
    | inr full ↦ rw (full) (rw (e) (call-SendsProper parse t op full))
  ]

  fits : (st : AuthStatus) (s : Session) → s.status ≡ st → IsCoherent s → FitsSession st s
  fits authenticated s e c =
      let (t, held, kept) = c.signed_in e in rw (held) (sends_token s.local t kept)
  fits unauthenticated s e c =
      let (no_token, no_user, no_permissions, (cleared, user, permissions)) = c.signed_out e in
      perform-signed_out parse server (stored s.local) op (rw (cleared) refl)
  fits loading s e c = tt

  -- A call of assets.ts, robots.ts, machines.ts, processes.ts, jobs.ts, triggers.ts or of packages.ts (but the
  -- download and the signature of an entrypoint), after any events of the provider of the session, from any
  -- localStorage: where the session is signed in, the call sends its route's request with the token that the
  -- provider holds, or fails where that is empty; where it is signed out, the call fails and nothing is sent,
  -- whatever the server would answer.
  pub call-FitsSession :
      (m : Storage) (hash : String) (es : List Event)
      → FitsSession (run (initial m hash) es).status (run (initial m hash) es)
  call-FitsSession m hash es =
      fits (run (initial m hash) es).status (run (initial m hash) es) refl
        (run-IsCoherent m hash es)
