-- ===== src/Tests/Rules.antt =====
-- Two automation rules of a tenant, and the theorems of rules.py at them.
use resu_align_lite.Prelude.{
  ℕ, leb, String, ◌≡◌, refl, Bool, true, false, ◌&&◌, Option, none, some, List, [], ◌∷◌, ltb,
  if◌then◌else◌, String_discrete, length,
}
use resu_align_lite.Prelude.Table.{same, any}
use resu_align_lite.Prelude.Texts.{strip, lstrip, rstrip}
use resu_align_lite.Prelude.Sort.{sort_by}
use resu_align_lite.Prelude.Search.{lower}
use resu_align_lite.Rules.{Rule, JobMeta}
use resu_align_lite.Rules.Store.{create_rule, list_rules, is_listed, check}
use resu_align_lite.Rules.First.{type_of, rejects, first_type, check-type}
use resu_align_lite.Rules.Sound.{
  Call, creates, updates, deletes, run, AllFresh, IsSound, run-IsSound,
}

-- A `float` that reads two texts.
abbrev read_number : String → Option ℕ
read_number s = if same s "9000" then some 9000 else if same s "12000" then some 12000 else none

abbrev floor : Rule
floor = record {
  rule_id = "a";
  tenant_id = "t";
  rule_type = "min_salary";
  value = "9000";
  label = none;
  enabled = true;
  created_at = 1;
  updated_at = 1;
}

abbrev banned : Rule
banned = record floor {
  rule_id = "b";
  rule_type = "blacklist";
  value = "Outsourcing, night";
  created_at = 2;
}

abbrev offer : JobMeta ℕ
offer = record {
  title = some "Night shift";
  jd_text = none;
  url = none;
  location = none;
  salary_min = some 5000;
  salary_max = none;
}

blacklist_is_first :
    type_of (check read_number ltb lower "t" offer false (floor ∷ banned ∷ [])) ≡ some "blacklist"
unfolding check list_rules sort_by String_discrete
blacklist_is_first = refl

salary_is_next :
    type_of (check read_number ltb lower "t" offer false (floor ∷ [])) ≡ some "min_salary"
unfolding check list_rules sort_by String_discrete
salary_is_next = refl

check-type_example :
    type_of (check read_number ltb lower "t" offer false (floor ∷ banned ∷ []))
    ≡ first_type read_number ltb lower false offer (λ k.
      any
        (λ r. is_listed "t" true r && rejects read_number ltb lower false offer k r)
        (floor ∷ banned ∷ []))
check-type_example = check-type read_number ltb lower false offer "t" (floor ∷ banned ∷ [])

abbrev edits : List Call
edits =
    creates "c" 5 "t" "min_salary" "12000" none true
    ∷ updates "t" "a" 6 (some "12000") none (some false)
    ∷ deletes "t" "c"
    ∷ []

floor_is_sound : IsSound read_number leb 0 (floor ∷ [])
unfolding String_discrete
floor_is_sound = ((refl, tt), (refl, tt))

edits_are_fresh : AllFresh read_number leb 0 edits (floor ∷ [])
unfolding String_discrete
edits_are_fresh = (refl, (tt, (tt, tt)))

run-IsSound_example : IsSound read_number leb 0 (run read_number leb 0 edits (floor ∷ []))
run-IsSound_example =
    run-IsSound read_number leb 0 edits (floor ∷ []) edits_are_fresh floor_is_sound

-- A rule of the type that is retired in rules.py can still be created.
city_is_created :
    length (create_rule read_number leb 0 "c" 5 "t" "city_whitelist" "Shanghai" none true []).0 ≡ 1
unfolding create_rule strip lstrip rstrip String_discrete
city_is_created = refl

-- Numbers and NaN, of which no comparison is true.
abbrev at_most_nan : Option ℕ → Option ℕ → Bool
at_most_nan none y = false
at_most_nan (some x) none = false
at_most_nan (some x) (some y) = leb x y

abbrev read_nan : String → Option (Option ℕ)
read_nan s = if same s "nan" then some none else none

-- NaN is stored as a minimal salary.
nan_is_stored :
    length (create_rule read_nan at_most_nan (some 0) "c" 5 "t" "min_salary" "nan" none true []).0
    ≡ 1
unfolding create_rule strip lstrip rstrip String_discrete
nan_is_stored = refl
