-- ===== src/Processes/Runnable.antt =====
-- What the form of a process saves (ProcessesPage.tsx).
use bv_orchestrator.Packages.{Package}
use bv_orchestrator.Processes.{
  FormValues, ProcessModal, chosen, selected_package, Submitted, refused, values, check_source,
  submit, Payload, payload_of,
}
use bv_orchestrator.Common.{
  ◌==◌, nat_eq, string_eq, if◌then◌else◌, or_default, is_some, Bool-cases, is_empty, trim, String,
  ◌≡◌, refl, inl, inr, Bool, true, false, not, ◌&&◌, ◌||◌, Option, none, some, List, arith,
}

-- The payload names something that a robot can run: an entrypoint of a package, or a script.
abbrev pub is_runnable : Payload → Bool
is_runnable p = elim p.entrypoint_name [
  | none ↦ false
  | some none ↦ not (is_empty (trim (or_default p.script_path "")))
  | some (some e) ↦ not (is_empty e) && is_some p.package_id && not (is_some p.script_path)
]

abbrev IsRunnable : Submitted → Type 0
IsRunnable (refused title) = Unit {0}
IsRunnable (values v) = (is_runnable (payload_of v) ≡ true) × (is_empty (trim v.name) ≡ false)

chosen_lem :
    (o : Option String) → not (is_some (chosen o)) ≡ false → is_empty (or_default o "") ≡ false
chosen_lem none h = cc
chosen_lem (some s) h = ground arith

-- an entrypoint of a package
packaged :
    (p : Package) (o : Option String)
    → (p.id == 0) ≡ false
    → is_empty (or_default o "") ≡ false
    → not (is_empty (or_default o ""))
        && is_some (if p.id == 0 then none else some p.id)
        && not (is_some {A = String} none)
      ≡ true
packaged p o id entry = rw (id, entry) refl

check_source-IsRunnable :
    (sel : Option Package) (m : ProcessModal)
    → is_empty (trim m.form.name) ≡ false
    → IsRunnable (check_source sel m)
unfolding check_source payload_of
check_source-IsRunnable none m named = elim (Bool-cases (is_empty (trim m.form.script_path))) [
  | inl blank ↦ rw (blank) tt
  | inr given ↦ rw (given) (rw (given) refl, named)
]
check_source-IsRunnable (some p) m named =
    let no_package =
      not (is_some (chosen m.package_name))
      || not (is_some (chosen m.package_version))
      || not (not (p.id == 0)) in
    let no_entry = not (is_some (chosen m.entrypoint_name)) in
    elim (Bool-cases p.is_bvpackage) [
      | inl bv ↦ elim (Bool-cases no_package) [
        | inl lacking ↦ rw (bv, lacking) tt
        | inr given ↦ elim (Bool-cases no_entry) [
          | inl lacking ↦ rw (bv, given, lacking) tt
          | inr entry ↦
              rw (bv, given, entry)
                (
                  packaged p m.entrypoint_name (ground arith) (chosen_lem m.entrypoint_name entry),
                  named,
                )
        ]
      ]
      | inr script ↦ elim (Bool-cases (is_empty (trim m.form.script_path))) [
        | inl blank ↦ rw (script, blank) tt
        | inr given ↦ rw (script, given) (rw (given) refl, named)
      ]
    ]

-- Whatever package is selected: what the form saves has a name that is not blank, and it has either an entrypoint
-- with its package and no script, or a script that is not blank and no entrypoint.
pub submit-IsRunnable :
    (ps : List Package) (m : ProcessModal) (v : FormValues)
    → submit ps m ≡ values v
    → (is_runnable (payload_of v) ≡ true) × (is_empty (trim v.name) ≡ false)
unfolding submit
submit-IsRunnable ps m v h = elim (Bool-cases (is_empty (trim m.form.name))) [
  | inl blank ↦ absurd (let no : refused "Name is required" ≡ values v = (rw (blank) at h) in cc)
  | inr named ↦
      (let e : check_source (selected_package ps m) m ≡ values v = (rw (named) at h) in
        let fit = check_source-IsRunnable (selected_package ps m) m named in rw (e) at fit)
]
