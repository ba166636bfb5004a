-- ===== src/QueueItems/NewItem.antt =====
-- The window of a new item (QueueItemsPage.tsx), with the request of api/queueItems.ts and the labels of the
-- priorities in types/queueItem.ts.
use bv_orchestrator.Json.{Json, truthy, truthy?}
use bv_orchestrator.Common.Number.{Number, int, to_number}
use bv_orchestrator.Common.Int.{pos}
use bv_orchestrator.Common.{
  ◌==◌, nat_eq, string_eq, if◌then◌else◌, or_default, is_some, Bool-cases, Option-cases, ◌+++◌,
  is_empty, or_text, trim, show_nat, ℕ, String, ◌≡◌, refl, inl, inr, Bool, true, false, not, ◌&&◌,
  ◌||◌, Option, none, some, List, [], ◌∷◌, ◌++◌,
}

pub record ItemForm : Type 0 where
  pub reference : String
  pub priority : Option Number
  pub payload_text : String

-- The state of the window; `said` are the titles of its alerts, the newest first.
pub record NewItem : Type 0 where
  pub form : ItemForm
  pub saving : Bool
  pub error : Option String
  pub said : List String

abbrev pub new_item : NewItem
new_item = record {
  form = record { reference = ""; priority = some (int (pos 0)); payload_text = "" };
  saving = false;
  error = none;
  said = [];
}

-- the inputs of the form
pub data ItemEdit : Type 0 where
  type_reference type_priority type_payload : (value : String) → ItemEdit

-- `handleChange`
unfoldable pub handle_change : ItemEdit → NewItem → NewItem
unfolding to_number
handle_change (type_reference s) w = record w {
  form = record w.form { reference = s };
  error = none;
}
handle_change (type_priority s) w = record w {
  form = record w.form { priority = if is_empty s then none else some (to_number s) };
}
handle_change (type_payload s) w = record w { form = record w.form { payload_text = s } }

-- the body of `createQueueItem`, at the arguments of `handleCreate`
pub record ItemBody : Type 0 where
  pub queue_external_id : String
  pub reference : Option String
  pub priority : Number
  pub payload : Option Json

abbrev body_of : String → ItemForm → Option Json → ItemBody
body_of queue_id form payload = record {
  queue_external_id = queue_id;
  reference = if is_empty form.reference then none else some form.reference;
  priority = or_default form.priority (int (pos 0));
  payload = elim payload [ none ↦ none | some v ↦ if truthy v then some v else none ];
}

-- `parse` is `JSON.parse`, `none` where it throws.
module _ (parse : String → Option Json) where
  -- the titles of its alerts, and the payload
  unfoldable pub parse_payload : ItemForm → List String × Option Json
  parse_payload form =
      if is_empty (trim form.payload_text)
      then ([], none)
      else elim (parse (trim form.payload_text)) [
        | none ↦ ("Invalid JSON" ∷ [], none)
        | some v ↦ ([], some v)
      ]

  -- `submit` up to its request, at the queue of the page
  unfoldable pub submit_item : String → NewItem → Option ItemBody × NewItem
  unfolding parse_payload
  submit_item queue_id w =
      let (said, payload) = parse_payload w.form in
      if not (is_empty w.form.payload_text) && not (truthy? payload)
      then (none, record w { said = said ++ w.said })
      else (
        some (body_of queue_id w.form payload),
        record w { error = none; saving = true; said = said ++ w.said },
      )

-- what the server answers
pub data ItemAnswer : Type 0 where
  created : ItemAnswer
  duplicate : (message : Option String) → ItemAnswer
  failed : (message : String) → ItemAnswer

-- the message of the error that `createQueueItem` throws
abbrev pub error_of : ItemAnswer → Option String
error_of created = none
error_of (duplicate m) = some (or_text (or_default m "") "Duplicate reference")
error_of (failed m) = some m

-- The end of `submit`: `none` is the window that `handleCreate` has closed.
unfoldable pub item_answered : ItemAnswer → NewItem → Option NewItem
item_answered a w = elim (error_of a) [
  | none ↦ none
  | some m ↦ some (record w { error = some (or_text m "Create failed"); saving = false })
]

-- `formatQueueItemPriority`
unfoldable pub format_queue_item_priority : ℕ → String
unfolding show_nat
format_queue_item_priority n =
    if n == 0
    then "Low"
    else if n == 1
    then "Normal"
    else if n == 2
    then "Medium"
    else if n == 3
    then "High"
    else "Priority " +++ show_nat n

module _ (parse : String → Option Json) where
  -- whether the text is the JSON of a value that is not null, false, zero or an empty text
  abbrev pub is_payload : String → Bool
  is_payload t = not (is_empty (trim t)) && truthy? (parse (trim t))

  -- An item is asked for exactly when its payload is empty or the JSON of a value that counts as true, and the
  -- window then waits for the answer, its error gone. Where it is not, the form, the error and all else of the window
  -- stay as they are, but for an alert on invalid JSON, which comes exactly when the payload is not blank and is not
  -- JSON: a payload of spaces alone, or of a value such as 0, is refused without a word.
  pub submit_item_iff :
      (queue_id : String) (w : NewItem)
      → (is_some (submit_item parse queue_id w).0
          ≡ (is_empty w.form.payload_text || is_payload w.form.payload_text))
        × ((submit_item parse queue_id w).1 ≡ (
            let told =
              if not (is_empty (trim w.form.payload_text))
                && not (is_some (parse (trim w.form.payload_text)))
              then "Invalid JSON" ∷ w.said
              else w.said in
            if is_empty w.form.payload_text || is_payload w.form.payload_text
            then record w { error = none; saving = true; said = told }
            else record w { said = told }))
  unfolding submit_item parse_payload
  submit_item_iff queue_id w = elim (Bool-cases (is_empty w.form.payload_text)) [
    | inl empty ↦ elim (Bool-cases (is_empty (trim w.form.payload_text))) [
      | inl blank ↦ rw (empty, blank) (refl, refl)
      | inr full ↦ elim (Option-cases (parse (trim w.form.payload_text))) [
        | inl bad ↦ rw (empty, full, bad) (refl, refl)
        | inr (v, good) ↦ rw (empty, full, good) (refl, refl)
      ]
    ]
    | inr typed ↦ elim (Bool-cases (is_empty (trim w.form.payload_text))) [
      | inl blank ↦ rw (typed, blank) (refl, refl)
      | inr full ↦ elim (Option-cases (parse (trim w.form.payload_text))) [
        | inl bad ↦ rw (typed, full, bad) (refl, refl)
        | inr (v, good) ↦ elim (Bool-cases (truthy v)) [
          | inl holds ↦ rw (typed, full, good, holds) (refl, refl)
          | inr fails ↦ rw (typed, full, good, fails) (refl, refl)
        ]
      ]
    ]
  ]
