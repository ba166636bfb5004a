-- ===== src/Robots/Tests.antt =====
-- The form of a robot on concrete robots (RobotsPage.tsx).
use bv_orchestrator.Robots.{
  offline, Robot, RobotForm, opened, submit, save_start, save_form, update_robot,
}
use bv_orchestrator.Common.{nat_eq, string_eq, trim, ◌≡◌, refl, none, some}

form : Unit {0}
unfolding submit save_start save_form opened trim
form = tt

abbrev robot : Robot
robot = record {
  id = 4;
  name = "north";
  status = offline;
  machine_id = some 2;
  machine_name = none;
  machine_info = none;
  username = some "svc";
  last_heartbeat = none;
  current_job_id = none;
}

abbrev typed : RobotForm
typed = record (opened (some robot)) { name = "south"; credential_password = " pw " }

saved_test :
    save_form (some robot) typed
    ≡ some (
        update_robot 4 (record {
          name = some "south";
          credential = some (record { username = "svc"; password = "pw" });
          machine_info = none;
        }))
unfolding form
saved_test = refl

refused_test : save_form (some robot) (record (opened (some robot)) { name = "south" }) ≡ none
unfolding form
refused_test = refl
