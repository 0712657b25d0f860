-- ===== src/Fusion/BookSeverity.antt =====
-- Whether a detected book escalates to a flag (fusion/book_severity.py).
use ai_proctor_engine.Base.{String, str_eq, Bool, true, false, ◌||◌, if◌then◌else◌}
use ai_proctor_engine.Inference.{Json, text, arr, Items, nil, item, Fields, end, field}

abbrev pub book_flag_severity : String
book_flag_severity = "medium"

abbrev pub book_rule_code : String
book_rule_code = "book_detected"

-- `text in items`: an item of another type equals no string.
is_text : String → {F : Type 0} → Json F → Bool
is_text s (text t) = str_eq t s
is_text s _ = false

has_text : {F : Type 0} → String → Items F → Bool
has_text s nil = false
has_text s (item j rest) = is_text s j || has_text s rest

-- `isinstance(allowed, list) and "book" in allowed`
lists_book : {F : Type 0} → Json F → Bool
unfolding has_text is_text
lists_book (arr items) = has_text "book" items
lists_book _ = false

-- `details.get("allowed_items", [])`
allowed_items : {F : Type 0} → Fields F → Json F
allowed_items end = arr nil
allowed_items (field k j rest) = if str_eq k "allowed_items" then j else allowed_items rest

unfoldable pub should_flag_book : {F : Type 0} → String → Fields F → Bool
unfolding lists_book allowed_items
should_flag_book reference_material_policy permitted_material_details =
    if str_eq reference_material_policy "closed_book"
    then true
    else if str_eq reference_material_policy "open_book"
    then false
    else if str_eq reference_material_policy "specific_list"
    then if lists_book (allowed_items permitted_material_details) then false else true
    else true
