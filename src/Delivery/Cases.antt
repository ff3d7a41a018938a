-- ===== src/Delivery/Cases.antt =====
-- Texts known up to five spellings: the stages and their labels as cases of a proof.
use resu_align_lite.Prelude.{String, ◌≡◌, sym, subst, inl, inr, false, Bool-cases}
use resu_align_lite.Prelude.Table.{same_eq, same}

-- A text that is none of five.
abbrev pub IsNoneOf : String → String → String → String → String → String → Type 0
IsNoneOf d a i o w s =
    (same d s ≡ false)
    × (same a s ≡ false)
    × (same i s ≡ false)
    × (same o s ≡ false)
    × (same w s ≡ false)

-- To prove a statement of every text: it holds of five texts, and of all others.
pub by_five {ℓ} :
    (d a i o w : String) (P : String → Type ℓ)
    → P d
    → P a
    → P i
    → P o
    → P w
    → ((s : String) → IsNoneOf d a i o w s → P s)
    → (s : String) → P s
by_five d a i o w P pd pa pi po pw other s = elim (Bool-cases (same d s)) [
  | inl e ↦ subst P (sym (same_eq d s e)) pd
  | inr nd ↦ elim (Bool-cases (same a s)) [
    | inl e ↦ subst P (sym (same_eq a s e)) pa
    | inr na ↦ elim (Bool-cases (same i s)) [
      | inl e ↦ subst P (sym (same_eq i s e)) pi
      | inr ni ↦ elim (Bool-cases (same o s)) [
        | inl e ↦ subst P (sym (same_eq o s e)) po
        | inr no_offer ↦ elim (Bool-cases (same w s)) [
          | inl e ↦ subst P (sym (same_eq w s e)) pw
          | inr nw ↦ other s (nd, na, ni, no_offer, nw)
        ]
      ]
    ]
  ]
]

-- The stages, and the texts that are none.
abbrev pub IsOther : String → Type 0
IsOther s = IsNoneOf "draft" "applied" "interview" "offer" "withdrawn" s

pub by_stage {ℓ} :
    (P : String → Type ℓ)
    → P "draft"
    → P "applied"
    → P "interview"
    → P "offer"
    → P "withdrawn"
    → ((s : String) → IsOther s → P s)
    → (s : String) → P s
by_stage P = by_five "draft" "applied" "interview" "offer" "withdrawn" P

-- The labels, and the texts that are none.
abbrev pub IsNoLabel : String → Type 0
IsNoLabel s = IsNoneOf "未投递" "已投递" "面试中" "已拿Offer" "放弃" s

pub by_label {ℓ} :
    (P : String → Type ℓ)
    → P "未投递"
    → P "已投递"
    → P "面试中"
    → P "已拿Offer"
    → P "放弃"
    → ((s : String) → IsNoLabel s → P s)
    → (s : String) → P s
by_label P = by_five "未投递" "已投递" "面试中" "已拿Offer" "放弃" P

-- Both: the ten spellings of a stage, and the texts that are none.
pub by_spelling {ℓ} :
    (P : String → Type ℓ)
    → P "未投递"
    → P "已投递"
    → P "面试中"
    → P "已拿Offer"
    → P "放弃"
    → P "draft"
    → P "applied"
    → P "interview"
    → P "offer"
    → P "withdrawn"
    → ((s : String) → IsNoLabel s → IsOther s → P s)
    → (s : String) → P s
by_spelling P la lb lc ld le d a i o w other = by_label P la lb lc ld le (λ s h.
    by_stage (λ s. IsNoLabel s → P s) (λ h. d) (λ h. a) (λ h. i) (λ h. o) (λ h. w)
      (λ s k h. other s h k) s h)
