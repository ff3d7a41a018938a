-- ===== src/SecretBox/Stable.antt =====
-- An encrypted value of secret_box.py that is encrypted again.
use resu_align_lite.Prelude.{
  ℕ, String, ◌≡◌, refl, sym, subst, inl, inr, Option, none, some, List, Bool-cases,
}
use resu_align_lite.Prelude.{
  ℕ, String, ◌≡◌, refl, sym, subst, inl, inr, Option, none, some, List, Bool-cases,
}
use resu_align_lite.Prelude.Texts.{is_empty}
use resu_align_lite.SecretBox.{
  after_text, is_ascii, prefix, Outcome, returned, empty_key_file, bad_key, not_ascii,
  undecryptable, Box, load_or_create_fernet, seal, encrypt_text, encrypt_value,
}

module _ {F : Type 0} (fernet : List ℕ → Option F) (encrypt : F → ℕ → String → String)
    (decrypt : F → String → Option String) where
  -- Nothing is encrypted twice.
  abbrev IsStable : Outcome (Option String) → Type 0
  IsStable (returned w) =
      (fresh : List ℕ) (raced : Option (List ℕ)) (draw : ℕ) (b : Box F)
      → encrypt_value fernet encrypt decrypt fresh raced draw w b ≡ (b, returned w)
  IsStable _ = Unit

  seal-IsStable :
      (draw : ℕ) (s : String) (r : Box F × Outcome F)
      → IsStable (seal fernet encrypt decrypt draw s r).1
  unfolding encrypt_value
  seal-IsStable draw s (b, returned f) = elim (Bool-cases (is_ascii (encrypt f draw s))) [
    | inl e ↦ rw e (λ fresh raced d c. refl)
    | inr e ↦ rw e tt
  ]
  seal-IsStable draw s (b, empty_key_file) = tt
  seal-IsStable draw s (b, bad_key) = tt
  seal-IsStable draw s (b, not_ascii) = tt
  seal-IsStable draw s (b, undecryptable) = tt

  encrypt_text-IsStable :
      (fresh : List ℕ) (raced : Option (List ℕ)) (draw : ℕ) (s : String) (o : Option String)
      (b : Box F)
      → o ≡ after_text prefix s
      → IsStable (encrypt_text fernet encrypt decrypt fresh raced draw s o b).1
  unfolding encrypt_value
  encrypt_text-IsStable fresh raced draw s (some token) b e = λ fr ra d c. rw (sym e) refl
  encrypt_text-IsStable fresh raced draw s none b e = elim (Bool-cases (is_empty s)) [
    | inl h ↦ rw h (λ fr ra d c. rw (sym e, h) refl)
    | inr h ↦
        rw h (seal-IsStable draw s (load_or_create_fernet fernet encrypt decrypt fresh raced b))
  ]

  encrypt_value-IsStable :
      (fresh : List ℕ) (raced : Option (List ℕ)) (draw : ℕ) (v : Option String) (b : Box F)
      → IsStable (encrypt_value fernet encrypt decrypt fresh raced draw v b).1
  unfolding encrypt_value
  encrypt_value-IsStable fresh raced draw none b = λ fr ra d c. refl
  encrypt_value-IsStable fresh raced draw (some s) b =
      encrypt_text-IsStable fresh raced draw s (after_text prefix s) b refl

  -- A value that an encryption returned is returned as it is by every later one, by any process,
  -- which neither reads nor creates a key for it.
  pub encrypt_value_idem :
      (fresh : List ℕ) (raced : Option (List ℕ)) (draw : ℕ) (v w : Option String) (b : Box F)
      → (encrypt_value fernet encrypt decrypt fresh raced draw v b).1 ≡ returned w
      → (later : List ℕ) (other : Option (List ℕ)) (next : ℕ) (c : Box F)
      → encrypt_value fernet encrypt decrypt later other next w c ≡ (c, returned w)
  encrypt_value_idem fresh raced draw v w b e =
      subst IsStable e (encrypt_value-IsStable fresh raced draw v b)
