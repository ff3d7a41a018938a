-- ===== src/Rules.antt =====
-- rules.py: the automation rules that reject a job before it is analysed, without a language model.
-- Texts are lists of code points. Salaries and `float` are parameters with the test `<`, and so is
-- `str.lower`, which reads a table of Unicode.
use resu_align_lite.Prelude.{
  ℕ, String, Bool, true, false, not, ◌&&◌, ◌||◌, Option, none, some, List, [], ◌∷◌, ◌++◌, map, ◌==◌,
  if◌then◌else◌,
}
use resu_align_lite.Prelude.Table.{same, filter, any}
use resu_align_lite.Prelude.Sort.{sort_by}
use resu_align_lite.Prelude.Texts.{is_space_code, or_text, strip}
use resu_align_lite.Prelude.Search.{codes, contains, same_codes}
pub mod Store
pub mod First
pub mod Sound

-- A row of `automation_rules`.
pub record Rule : Type 0 where
  pub rule_id : String
  pub tenant_id : String
  pub rule_type : String
  pub value : String
  pub label : Option String
  pub enabled : Bool
  pub created_at : ℕ
  pub updated_at : ℕ

abbrev pub is_empty : List ℕ → Bool
is_empty [] = true
is_empty (c ∷ s) = false

abbrev pub is_separator : ℕ → Bool
is_separator c = c == b',' || c == 65292 || is_space_code c

-- A token that has ended.
abbrev pub emit : List ℕ → List (List ℕ) → List (List ℕ)
emit [] rest = rest
emit (c ∷ s) rest = (c ∷ s) ∷ rest

-- The tokens between separators. A token has no space that `strip` could remove.
unfoldable pub tokens : List ℕ → List ℕ → List (List ℕ)
tokens token [] = emit token []
tokens token (c ∷ s) =
    let ended = tokens [] s in
    let longer = tokens (token ++ c ∷ []) s in if is_separator c then emit token ended else longer

-- `_split_rule_value`
unfoldable pub split_rule_value : String → List (List ℕ)
unfolding tokens
split_rule_value value = tokens [] (codes value)

abbrev pub drop_spaces : List ℕ → List ℕ
drop_spaces s = filter (λ c. not (is_space_code c)) s

-- `rstrip("市")`
abbrev pub rstrip_city : List ℕ → List ℕ
rstrip_city [] = []
rstrip_city (c ∷ s) =
    let rest = rstrip_city s in if c == 24066 && is_empty rest then [] else c ∷ rest

unfoldable pub normalize_city : List ℕ → List ℕ
normalize_city s = rstrip_city (drop_spaces s)

pub data Reason (F : Type 0) : Type 0 where
  keyword_hit : List ℕ → Reason F
  city_unknown : Reason F
  city_outside : String → Reason F
  salary_below : F → Reason F

-- `RuleVerdict`: accepted, or the type of the rule that rejects and its reason.
pub data Verdict (F : Type 0) : Type 0 where
  accepted : Verdict F
  rejected : (rule_type : String) → Reason F → Verdict F

-- The fields of a job that the rules read.
pub record JobMeta (F : Type 0) : Type 0 where
  pub title : Option String
  pub jd_text : Option String
  pub url : Option String
  pub location : Option String
  pub salary_min : Option F
  pub salary_max : Option F

abbrev pub is_none {ℓ} : {A : Type ℓ} → Option A → Bool
is_none none = true
is_none (some x) = false

-- `precedence.get(rule_type, 99)`
unfoldable pub precedence : Rule → ℕ
precedence r =
    if same r.rule_type "blacklist"
    then 0
    else if same r.rule_type "city_whitelist"
    then 1
    else if same r.rule_type "min_salary"
    then 2
    else 99

module _ {F : Type 0} (float : String → Option F) (below : F → F → Bool)
    (lower : List ℕ → List ℕ) where
  unfoldable pub haystack : JobMeta F → List ℕ
  haystack m = lower (
      codes (or_text m.title "")
      ++ (b'\n' ∷ codes (or_text m.jd_text "") ++ (b'\n' ∷ codes (or_text m.url ""))))

  -- The loop over the keywords.
  unfoldable pub first_hit : List ℕ → List (List ℕ) → Verdict F
  first_hit text [] = accepted
  first_hit text (k ∷ ks) =
      let rest = first_hit text ks in
      if is_empty (lower k)
      then rest
      else if contains (lower k) text
      then rejected "blacklist" (keyword_hit k)
      else rest

  unfoldable pub check_blacklist : Rule → List ℕ → Verdict F
  unfolding first_hit split_rule_value
  check_blacklist r text = first_hit text (split_rule_value r.value)

  abbrev pub matches_city : List ℕ → List ℕ → Bool
  matches_city place city = same_codes place city || contains city place || contains place city

  abbrev pub city_verdict : String → List (List ℕ) → Verdict F
  city_verdict location [] = accepted
  city_verdict location (c ∷ cs) =
      let place = normalize_city (codes location) in
      if same location ""
      then rejected "city_whitelist" city_unknown
      else if any (matches_city place) (c ∷ cs)
      then accepted
      else rejected "city_whitelist" (city_outside location)

  unfoldable pub check_city : Rule → Option String → Verdict F
  unfolding split_rule_value normalize_city
  check_city r location =
      city_verdict (strip (or_text location "")) (map normalize_city (split_rule_value r.value))

  abbrev pub is_below : F → Option F → Bool
  is_below threshold none = false
  is_below threshold (some x) = below x threshold

  abbrev pub salary_verdict : Option F → Option F → Option F → Verdict F
  salary_verdict none low high = accepted
  salary_verdict (some threshold) low high =
      if is_none low && is_none high
      then accepted
      else if is_below threshold high || is_below threshold low
      then rejected "min_salary" (salary_below threshold)
      else accepted

  unfoldable pub check_salary : Rule → Option F → Option F → Verdict F
  check_salary r low high = salary_verdict (float r.value) low high

  abbrev pub is_falsy : Option String → Bool
  is_falsy none = true
  is_falsy (some s) = same s ""

  -- The body of the loop of `check`; a rule that is passed over accepts.
  unfoldable pub check_rule : Bool → JobMeta F → Rule → Verdict F
  unfolding check_blacklist check_city check_salary haystack
  check_rule preflight m r =
      if same r.rule_type "blacklist"
      then check_blacklist r (haystack m)
      else if same r.rule_type "city_whitelist"
      then (if preflight && is_falsy m.location then accepted else check_city r m.location)
      else if same r.rule_type "min_salary"
      then (if preflight && (is_none m.salary_min && is_none m.salary_max)
          then accepted
          else check_salary r m.salary_min m.salary_max)
      else accepted

  abbrev pub or_next : Verdict F → Verdict F → Verdict F
  or_next accepted next = next
  or_next (rejected t r) next = rejected t r

  -- The loop over the ordered rules.
  unfoldable pub first_rejection : Bool → JobMeta F → List Rule → Verdict F
  unfolding check_rule
  first_rejection preflight m [] = accepted
  first_rejection preflight m (r ∷ rs) =
      or_next (check_rule preflight m r) (first_rejection preflight m rs)

  -- `check` over the tenant's enabled rules.
  unfoldable pub check_rules : Bool → JobMeta F → List Rule → Verdict F
  unfolding precedence first_rejection
  check_rules preflight m rs = first_rejection preflight m (sort_by precedence rs)
