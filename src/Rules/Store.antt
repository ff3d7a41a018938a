-- ===== src/Rules/Store.antt =====
-- The automation rules in job_library/__init__.py: `create_rule` to `delete_rule`, and `check` of
-- rules.py, which reads them.
use resu_align_lite.Prelude.{
  ℕ, String, Bool, true, false, not, ◌&&◌, ◌||◌, Option, none, some, List, [], ◌∷◌, ◌++◌,
  if◌then◌else◌,
}
use resu_align_lite.Prelude.Table.{same, filter, update, any, first}
use resu_align_lite.Prelude.Sort.{sort_by}
use resu_align_lite.Prelude.Texts.{strip, is_empty}
use resu_align_lite.Delivery.Vocabulary.{member}
use resu_align_lite.Rules.{Rule, JobMeta, Verdict, check_rules}

abbrev pub rule_types : List String
rule_types = "blacklist" ∷ "city_whitelist" ∷ "min_salary" ∷ []

abbrev pub is_rule : String → String → Rule → Bool
is_rule tenant id r = same r.rule_id id && same r.tenant_id tenant

unfoldable pub get_rule : String → String → List Rule → Option Rule
get_rule tenant id rs = first (is_rule tenant id) rs

abbrev pub is_listed : String → Bool → Rule → Bool
is_listed tenant enabled_only r = same r.tenant_id tenant && (not enabled_only || r.enabled)

-- `ORDER BY created_at ASC, rowid ASC`
unfoldable pub list_rules : String → Bool → List Rule → List Rule
list_rules tenant enabled_only rs =
    sort_by (λ r. r.created_at) (filter (is_listed tenant enabled_only) rs)

unfoldable pub delete_rule : String → String → List Rule → List Rule × Bool
delete_rule tenant id rs = (filter (λ r. not (is_rule tenant id r)) rs, any (is_rule tenant id) rs)

-- What a method returns, or the UserStoreError it raises.
pub data Outcome : Type 0 where
  returned : Option Rule → Outcome
  invalid_type value_required not_positive : Outcome

module _ {F : Type 0} (float : String → Option F) (at_most : F → F → Bool) (zero_pay : F) where
  -- A number that passes the test `threshold <= 0`. NaN does.
  abbrev pub positive : Option F → Bool
  positive none = false
  positive (some x) = not (at_most x zero_pay)

  -- `_validate_min_salary_value`: whether it returns.
  unfoldable pub validate_min_salary_value : String → Bool
  validate_min_salary_value value = positive (float (strip value))

  abbrev pub insert_rule :
      String → ℕ → String → String → String → Option String → Bool → List Rule → List Rule × Outcome
  insert_rule id now tenant kind value label enabled rs =
      let next =
        rs
        ++ record {
          rule_id = id;
          tenant_id = tenant;
          rule_type = kind;
          value = value;
          label = label;
          enabled = enabled;
          created_at = now;
          updated_at = now;
        }
          ∷ [] in
      if not (member kind rule_types)
      then (rs, invalid_type)
      else if is_empty value
      then (rs, value_required)
      else if same kind "min_salary" && not (validate_min_salary_value value)
      then (rs, not_positive)
      else (next, returned (get_rule tenant id next))

  -- `create_rule` with a fresh id at a time.
  unfoldable pub create_rule :
      String → ℕ → String → String → String → Option String → Bool → List Rule → List Rule × Outcome
  unfolding validate_min_salary_value get_rule
  create_rule id now tenant kind value label enabled rs =
      insert_rule id now tenant (strip kind) (strip value) label enabled rs

  abbrev pub or_keep {ℓ} : {A : Type ℓ} → Option A → A → A
  or_keep none old = old
  or_keep (some new) old = new

  abbrev pub or_keep_label : Option String → Option String → Option String
  or_keep_label none old = old
  or_keep_label (some new) old = some new

  abbrev pub set_rule : ℕ → Option String → Option String → Option Bool → Rule → Rule
  set_rule now value label enabled r = record r {
    value = or_keep value r.value;
    label = or_keep_label label r.label;
    enabled = or_keep enabled r.enabled;
    updated_at = now;
  }

  abbrev pub write_rule :
      String
      → String
      → ℕ
      → Option String
      → Option String
      → Option Bool
      → List Rule
      → List Rule × Outcome
  write_rule tenant id now value label enabled rs =
      let next = update (is_rule tenant id) (set_rule now value label enabled) rs in
      (next, returned (get_rule tenant id next))

  abbrev pub update_row :
      String
      → String
      → ℕ
      → Option String
      → Option String
      → Option Bool
      → List Rule
      → Option Rule
      → List Rule × Outcome
  update_row tenant id now value label enabled rs none = (rs, returned none)
  update_row tenant id now none label enabled rs (some current) =
      write_rule tenant id now none label enabled rs
  update_row tenant id now (some value) label enabled rs (some current) =
      if is_empty (strip value)
      then (rs, value_required)
      else if same current.rule_type "min_salary" && not (validate_min_salary_value (strip value))
      then (rs, not_positive)
      else write_rule tenant id now (some (strip value)) label enabled rs

  -- `update_rule`
  unfoldable pub update_rule :
      String
      → String
      → ℕ
      → Option String
      → Option String
      → Option Bool
      → List Rule
      → List Rule × Outcome
  unfolding validate_min_salary_value get_rule
  update_rule tenant id now value label enabled rs =
      update_row tenant id now value label enabled rs (get_rule tenant id rs)

module _ {F : Type 0} (float : String → Option F) (below : F → F → Bool)
    (lower : List ℕ → List ℕ) where
  -- `RuleFilterEngine.check`
  unfoldable pub check : String → JobMeta F → Bool → List Rule → Verdict F
  unfolding list_rules check_rules
  check tenant m preflight rs =
      check_rules float below lower preflight m (list_rules tenant true rs)
