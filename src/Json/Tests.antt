-- ===== src/Json/Tests.antt =====
-- Keys and values of the server (api/utils.ts).
use bv_orchestrator.Json.{Json, str, obj, arr, end, prop, nil, cons}
use bv_orchestrator.Json.Case.{to_camel, to_snake}
use bv_orchestrator.Json.Roundtrip.{IsSent, to_snake-to_camel}
use bv_orchestrator.Common.{nat_eq, string_eq, ◌≡◌, refl}

abbrev robot : Json
robot = obj (prop "last_seen_at" (str "now") (prop "tags" (arr (cons (str "A_b") nil)) end))

robot-IsSent : IsSent robot
unfolding IsSent
robot-IsSent = (refl, refl, (tt, ((tt, tt), tt)))

to_snake-to_camel_example : to_snake (to_camel robot) ≡ robot
to_snake-to_camel_example = to_snake-to_camel robot robot-IsSent
