-- ===== src/Processes/Label.antt =====
-- The label of a process by its script (ProcessesPage.tsx).
use bv_orchestrator.Processes.{Process}
use bv_orchestrator.Processes.Actions.{
  is_extension, without_extension, last_part, is_bvpackage, entrypoint_label,
}
use bv_orchestrator.Common.Separators.{lacks, lacks-append, append_step}
use text.Mathlib.TextLemmas.{nil-append, cons-append, append-nil}
use bv_orchestrator.Common.{
  ◌==◌, nat_eq, string_eq, Bool-cases, ◌+++◌, is_empty, or_text_self, Char, code, String, ◌≡◌, refl,
  sym, ap, ◌∙◌, inl, inr, Bool, true, false, not, ◌&&◌, ◌||◌, arith,
}

abbrev pub has_no_slash : String → Bool
has_no_slash s = lacks b'/' s && lacks b'\\' s

last_part_lem : (cur s : String) → has_no_slash s ≡ true → last_part cur s ≡ cur +++ s
unfolding last_part lacks
last_part_lem cur String.[] h = sym (append-nil cur)
last_part_lem cur (String.◌∷◌ c s) h =
    let apart : (code c == b'/' || code c == b'\\') ≡ false = ground arith in
    rw (apart)
      (last_part_lem (cur +++ String.◌∷◌ c String.[]) s (ground arith) ∙ append_step cur c s)

-- what stands before a slash has no part in it
last_part_skip : (cur dir s : String) → last_part cur (dir +++ String.◌∷◌ "/" s) ≡ last_part "" s
unfolding last_part
last_part_skip cur String.[] s = rw (nil-append (String.◌∷◌ "/" s)) refl
last_part_skip cur (String.◌∷◌ c dir) s =
    let closed = last_part_skip "" dir s in
    let longer = last_part_skip (cur +++ String.◌∷◌ c String.[]) dir s in
    rw (cons-append c dir (String.◌∷◌ "/" s))
      (elim (Bool-cases (code c == b'/' || code c == b'\\')) [
        | inl at ↦ rw (at) closed
        | inr off ↦ rw (off) longer
      ])

is_extension_lem : (s ext : String) → is_extension (s +++ String.◌∷◌ "." ext) ≡ false
is_extension_lem String.[] ext = rw (nil-append (String.◌∷◌ "." ext)) refl
is_extension_lem (String.◌∷◌ c s) ext =
    let rest = is_extension_lem s ext in rw (cons-append c s (String.◌∷◌ "." ext)) (ground arith)

without_extension_lem :
    (base ext : String)
    → is_empty ext ≡ false
    → is_extension ext ≡ true
    → without_extension (base +++ String.◌∷◌ "." ext) ≡ base
unfolding without_extension
without_extension_lem String.[] ext n e = rw (nil-append (String.◌∷◌ "." ext), n, e) refl
without_extension_lem (String.◌∷◌ c base) ext n e =
    let rest = without_extension_lem base ext n e in
    let no_ext = is_extension_lem base ext in
    rw (cons-append c base (String.◌∷◌ "." ext), no_ext, rest)
      (elim (Bool-cases (code c == b'.' && not (is_empty (base +++ String.◌∷◌ "." ext)) && false)) [
        | inl never ↦ absurd (ground arith)
        | inr kept ↦ rw (kept) refl
      ])

append-not_empty : (s : String) (c : Char) (t : String) → is_empty (s +++ String.◌∷◌ c t) ≡ false
append-not_empty String.[] c t = rw (nil-append (String.◌∷◌ c t)) refl
append-not_empty (String.◌∷◌ d s) c t = rw (cons-append d s (String.◌∷◌ c t)) refl

file_lem :
    (base ext : String)
    → has_no_slash base ≡ true
    → has_no_slash ext ≡ true
    → has_no_slash (base +++ String.◌∷◌ "." ext) ≡ true
unfolding lacks
file_lem base ext b x =
    let slash = lacks-append b'/' base (String.◌∷◌ "." ext) (ground arith) (ground arith) in
    let back = lacks-append b'\\' base (String.◌∷◌ "." ext) (ground arith) (ground arith) in
    rw (slash, back) refl

-- The label of a process without a package, whose script is `dir/base.ext`, is `base`: the directories and the
-- last extension are left out, and dots in the rest of the name are kept.
label-script :
    (p : Process) (dir base ext : String)
    → is_bvpackage p.of_package ≡ false
    → p.script_path ≡ dir +++ String.◌∷◌ "/" (base +++ String.◌∷◌ "." ext)
    → has_no_slash base ≡ true
    → has_no_slash ext ≡ true
    → is_empty ext ≡ false
    → is_extension ext ≡ true
    → entrypoint_label p ≡ base
unfolding entrypoint_label
label-script p dir base ext script path b x n e =
    let file = base +++ String.◌∷◌ "." ext in
    let last : last_part "" p.script_path ≡ file =
      ap (last_part "") path
      ∙ last_part_skip "" dir file
      ∙ last_part_lem "" file (file_lem base ext b x)
      ∙ nil-append file in
    let some_path : is_empty p.script_path ≡ false =
      ap (λ s. is_empty s) path ∙ append-not_empty dir "/" file in
    rw (script, some_path, last)
      (ap without_extension (or_text_self file p.script_path (append-not_empty base "." ext))
        ∙ without_extension_lem base ext n e)
