-- ===== src/Processes.antt =====
-- ProcessesPage.tsx: the form of a process, its check, and what is saved.
pub mod Runnable
pub mod Actions
pub mod Label
pub mod Tests
use bv_orchestrator.Packages.{Entrypoint, Package}
use bv_orchestrator.Common.{
  ◌==◌, nat_eq, string_eq, if◌then◌else◌, or_default, is_some, get_elem?, find_first, is_empty,
  or_text, trim, ℕ, String, Bool, false, not, ◌&&◌, ◌||◌, Option, none, some, List,
}

pub record PackageRef : Type 0 where
  pub name : String
  pub version : String
  pub is_bvpackage : Bool

-- types/processes.ts
pub record Process : Type 0 where
  pub id : ℕ
  pub name : String
  pub description : Option String
  pub package_id : Option ℕ
  pub script_path : String
  pub entrypoint_name : Option String
  pub of_package : Option PackageRef
  pub latest_version : Option String
  pub upgrade_available : Bool

pub record FormValues : Type 0 where
  pub name : String
  pub package_id : Option ℕ
  pub script_path : String
  pub entrypoint_name : String
  pub is_bv : Bool
  pub description : String

-- The state of the form; a choice of nothing is `none`.
pub record ProcessModal : Type 0 where
  pub package_name : Option String
  pub package_version : Option String
  pub entrypoint_name : Option String
  pub form : FormValues

-- `s || undefined`
abbrev pub chosen : Option String → Option String
chosen none = none
chosen (some s) = if is_empty s then none else some s

abbrev is_chosen : Option String → Bool
is_chosen o = is_some (chosen o)

-- `selectedPackage`
unfoldable pub selected_package : List Package → ProcessModal → Option Package
selected_package ps m =
    if is_chosen m.package_name && is_chosen m.package_version
    then find_first
        (λ (p : Package).
          p.name == or_default m.package_name "" && p.version == or_default m.package_version "")
        ps
    else none

abbrev pub is_bv_package : Option Package → Bool
is_bv_package none = false
is_bv_package (some p) = p.is_bvpackage

abbrev entry_name : Option Entrypoint → String
entry_name none = ""
entry_name (some e) = e.name

-- `defaultEp`
abbrev pub default_entry : Option Package → String
default_entry none = ""
default_entry (some p) =
    or_text
      (entry_name
        (find_first (λ (e : Entrypoint). some_is p.default_entrypoint e.name) p.entrypoints))
      (or_text (entry_name (find_first (λ (e : Entrypoint). e.is_default) p.entrypoints))
        (entry_name (get_elem? p.entrypoints 0)))
  where
    some_is : Option String → String → Bool
    some_is none s = false
    some_is (some t) s = s == t

abbrev id_of : Option Package → Option ℕ
id_of none = none
id_of (some p) = some p.id

-- The initial states, before what the package adds to them.
abbrev blank : Option Process → ProcessModal
blank none = record {
  package_name = none;
  package_version = none;
  entrypoint_name = none;
  form = record {
    name = "";
    package_id = none;
    script_path = "";
    entrypoint_name = "";
    is_bv = false;
    description = "";
  };
}
blank (some p) = record {
  package_name = ref_name p.of_package;
  package_version = ref_version p.of_package;
  entrypoint_name = chosen p.entrypoint_name;
  form = record {
    name = p.name;
    package_id = p.package_id;
    script_path = p.script_path;
    entrypoint_name = or_default p.entrypoint_name "";
    is_bv = false;
    description = or_default p.description "";
  };
}
  where
    ref_name : Option PackageRef → Option String
    ref_name none = none
    ref_name (some r) = some r.name

    ref_version : Option PackageRef → Option String
    ref_version none = none
    ref_version (some r) = some r.version

-- The form when it is opened.
unfoldable pub opened : List Package → Option Process → ProcessModal
unfolding selected_package
opened ps initial =
    let m = blank initial in
    record m { form = record m.form { is_bv = is_bv_package (selected_package ps m) } }

-- The effect on the package that is selected.
unfoldable pub package_effect : Option Package → ProcessModal → ProcessModal
package_effect sel m =
    let entry = or_text (or_default m.entrypoint_name "") (default_entry sel) in
    record m {
      form = record m.form {
        package_id = id_of sel;
        is_bv = is_bv_package sel;
        entrypoint_name = if is_bv_package sel then entry else "";
        script_path = if is_bv_package sel then "" else m.form.script_path;
      };
      entrypoint_name =
          if is_bv_package sel && not (is_chosen m.entrypoint_name)
          then chosen (some (default_entry sel))
          else m.entrypoint_name;
    }

unfoldable pub select_package : Option String → ProcessModal → ProcessModal
select_package name m = record m {
  package_name = chosen name;
  package_version = none;
  entrypoint_name = none;
}

unfoldable pub select_version : Option String → ProcessModal → ProcessModal
select_version version m = record m { package_version = chosen version; entrypoint_name = none }

unfoldable pub select_entrypoint : Option String → ProcessModal → ProcessModal
select_entrypoint ep m = record m {
  entrypoint_name = chosen ep;
  form = record m.form { entrypoint_name = or_default ep "" };
}

-- What `submit` comes to: an alert with its title, or values that are saved.
pub data Submitted : Type 0 where
  refused : (title : String) → Submitted
  values : FormValues → Submitted

abbrev has_id : Option Package → Bool
has_id none = false
has_id (some p) = not (p.id == 0)

abbrev kept_values : Option Package → ProcessModal → FormValues
kept_values sel m = record m.form {
  package_id = id_of sel;
  entrypoint_name = if is_bv_package sel then or_default m.entrypoint_name "" else "";
  is_bv = is_bv_package sel;
}

-- the tests of `submit` after the name
unfoldable pub check_source : Option Package → ProcessModal → Submitted
unfolding trim
check_source sel m =
    if is_bv_package sel
    then (if not (is_chosen m.package_name) || not (is_chosen m.package_version) || not (has_id sel)
        then refused "Package and version are required"
        else if not (is_chosen m.entrypoint_name)
        then refused "Entrypoint is required"
        else values (kept_values sel m))
    else if is_empty (trim m.form.script_path)
    then refused "Script Path is required"
    else values (kept_values sel m)

unfoldable pub submit : List Package → ProcessModal → Submitted
unfolding selected_package check_source
submit ps m =
    if is_empty (trim m.form.name)
    then refused "Name is required"
    else check_source (selected_package ps m) m

-- The payload of `handleSave`: `none` is a property that is not there, and `some none` one that is null.
pub record Payload : Type 0 where
  pub name : String
  pub description : String
  pub package_id : Option ℕ
  pub script_path : Option String
  pub entrypoint_name : Option (Option String)

abbrev non_zero : Option ℕ → Option ℕ
non_zero none = none
non_zero (some n) = if n == 0 then none else some n

unfoldable pub payload_of : FormValues → Payload
payload_of v = record {
  name = v.name;
  description = v.description;
  package_id = non_zero v.package_id;
  script_path = if v.is_bv then none else some v.script_path;
  entrypoint_name = if v.is_bv then some (some v.entrypoint_name) else some none;
}
