-- ===== src/Delivery/Vocabulary.antt =====
-- The delivery stages of job_library/models.py and the spellings of one
-- (job_library/status_lifecycle.py): each stage has a canonical key and a Chinese label.
use resu_align_lite.Prelude.{
  String, Bool, false, ◌||◌, Option, none, some, List, [], ◌∷◌, ◌++◌, map, if◌then◌else◌,
}
use resu_align_lite.Prelude.Table.{same}
use resu_align_lite.Prelude.Texts.{strip}

abbrev pub statuses : List String
statuses = "未投递" ∷ "已投递" ∷ "面试中" ∷ "已拿Offer" ∷ "放弃" ∷ []

abbrev pub canonical_statuses : List String
canonical_statuses = "draft" ∷ "applied" ∷ "interview" ∷ "offer" ∷ "withdrawn" ∷ []

abbrev pub status_aliases : List (String × String)
status_aliases =
    ("未投递", "draft")
    ∷ ("已投递", "applied")
    ∷ ("面试中", "interview")
    ∷ ("已拿Offer", "offer")
    ∷ ("放弃", "withdrawn")
    ∷ []

abbrev swap : String × String → String × String
swap p = (p.1, p.0)

abbrev pub status_labels : List (String × String)
status_labels = map swap status_aliases

-- `dict.get(key, default)`
abbrev pub dict_get : List (String × String) → String → String → String
dict_get [] key default = default
dict_get (p ∷ ps) key default =
    let rest = dict_get ps key default in if same p.0 key then p.1 else rest

-- `value in tuple`
abbrev pub member : String → List String → Bool
member v [] = false
member v (x ∷ xs) = same x v || member v xs

unfoldable pub canonical_status : String → String
canonical_status status = let value = strip status in dict_get status_aliases value value

unfoldable pub status_label : String → String
status_label status =
    let value = strip status in
    let canonical = dict_get status_aliases value value in
    dict_get status_labels canonical canonical

-- The keys of a dictionary that hold a value.
abbrev pub keys_of : List (String × String) → String → List String
keys_of [] v = []
keys_of (p ∷ ps) v = let rest = keys_of ps v in if same p.1 v then p.0 ∷ rest else rest

abbrev pub append_missing : List String → String → List String
append_missing xs v = if member v xs then xs else xs ++ v ∷ []

unfoldable pub status_filter_values : String → List String
status_filter_values status =
    let value = strip status in
    let canonical = canonical_status value in
    append_missing (append_missing (keys_of status_aliases canonical) canonical) value

-- none stands for the UserStoreError.
unfoldable pub validate_status : String → Option String
validate_status status =
    let value = strip status in
    if member value statuses || member value canonical_statuses then some value else none
