-- ===== src/Robots.antt =====
-- RobotsPage.tsx with types/robot.ts: the form of a robot, its check, and what is saved.
pub mod Saved
pub mod Tests
use bv_orchestrator.Common.{
  ◌==◌, nat_eq, string_eq, if◌then◌else◌, or_default, is_empty, trim, ℕ, String, Bool, not, ◌&&◌,
  ◌||◌, Option, none, some,
}

pub data RobotStatus : Type 0 where
  online offline : RobotStatus

pub record Robot : Type 0 where
  pub id : ℕ
  pub name : String
  pub status : RobotStatus
  pub machine_id : Option ℕ
  pub machine_name : Option String
  pub machine_info : Option String
  pub username : Option String
  pub last_heartbeat : Option String
  pub current_job_id : Option ℕ

pub record RobotForm : Type 0 where
  pub name : String
  pub machine_info : String
  pub machine_id : Option ℕ
  pub credential_username : String
  pub credential_password : String

-- the form when it is opened
unfoldable pub opened : Option Robot → RobotForm
opened none = record {
  name = "";
  machine_info = "";
  machine_id = none;
  credential_username = "";
  credential_password = "";
}
opened (some r) = record {
  name = r.name;
  machine_info = or_default r.machine_info "";
  machine_id = r.machine_id;
  credential_username = or_default r.username "";
  credential_password = "";
}

pub record Credential : Type 0 where
  pub username : String
  pub password : String

-- one of the two alone
abbrev pub is_half : String → String → Bool
is_half u p = not (is_empty u) && is_empty p || is_empty u && not (is_empty p)

-- What `submit` comes to: an alert with its title, or a form that is saved.
pub data Checked : Type 0 where
  refused : (title : String) → Checked
  fit : RobotForm → Checked

-- `submit`, whose tests are the same for a new robot and for one that is edited
unfoldable pub submit : RobotForm → Checked
submit form =
    if is_empty (trim form.name)
    then refused "Name is required"
    else if is_half (trim form.credential_username) (trim form.credential_password)
    then refused "Credentials incomplete"
    else fit form

pub record RobotUpdate : Type 0 where
  pub name : Option String
  pub credential : Option Credential
  pub machine_info : Option String

pub record RobotCreation : Type 0 where
  pub name : String
  pub machine_id : Option ℕ
  pub machine_info : Option String
  pub credential : Option Credential

pub data RobotRequest : Type 0 where
  update_robot : (id : ℕ) → RobotUpdate → RobotRequest
  create_robot : RobotCreation → RobotRequest

abbrev text_or_none : String → Option String
text_or_none s = if is_empty s then none else some s

abbrev credential_of : String → String → Option Credential
credential_of u p =
    if not (is_empty u) && not (is_empty p)
    then some (record { username = u; password = p })
    else none

-- `handleSave` up to its request: `none` is the alert on a credential of which one half is missing. An update
-- always has the machine's text, null where it is empty.
unfoldable pub save_start : Option Robot → RobotForm → Option RobotRequest
save_start (some r) form =
    if is_half (trim form.credential_username) (trim form.credential_password)
    then none
    else some (
        update_robot r.id (record {
          name = if form.name == r.name then none else some form.name;
          credential =
              credential_of (trim form.credential_username) (trim form.credential_password);
          machine_info = text_or_none form.machine_info;
        }))
save_start none form = some (
    create_robot (record {
      name = form.name;
      machine_id = form.machine_id;
      machine_info = text_or_none form.machine_info;
      credential = credential_of (trim form.credential_username) (trim form.credential_password);
    }))

-- the form with its request, as the page composes them
abbrev pub save_checked : Option Robot → Checked → Option RobotRequest
save_checked editing (refused title) = none
save_checked editing (fit form) = save_start editing form

unfoldable pub save_form : Option Robot → RobotForm → Option RobotRequest
unfolding submit save_start
save_form editing form = save_checked editing (submit form)
