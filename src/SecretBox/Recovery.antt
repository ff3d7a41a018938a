-- ===== src/SecretBox/Recovery.antt =====
-- What secret_box.py keeps of a secret over the calls and restarts that follow its encryption.
use resu_align_lite.Prelude.{
  ℕ, String, ◌≡◌, refl, sym, ap, subst, ◌∙◌, inl, inr, true, Option, none, some, List, [], ◌∷◌,
  Bool-cases,
}
use resu_align_lite.Prelude.{
  ℕ, String, ◌≡◌, refl, sym, ap, subst, ◌∙◌, inl, inr, true, Option, none, some, List, [], ◌∷◌,
  Bool-cases,
}
use resu_align_lite.Prelude.Texts.{is_empty}
use resu_align_lite.SecretBox.KeyFile.{
  IsKeyed, HasKey, Loaded, IsReadable, IsSound, IsFresh, load-HasKey, load-Loaded,
}
use resu_align_lite.SecretBox.{
  joined, after_text, is_ascii, prefix, Outcome, returned, empty_key_file, bad_key, not_ascii,
  undecryptable, Box, load_or_create_fernet, reset_cache, seal, encrypt_text, encrypt_value, unseal,
  decrypt_text, decrypt_value,
}

-- A call of the module by some process, with its fresh key and the key file of another process,
-- or the start of a process.
pub data Call : Type 0 where
  encrypting : List ℕ → Option (List ℕ) → ℕ → Option String → Call
  decrypting : List ℕ → Option (List ℕ) → Option String → Call
  restarting : Call

module _ {F : Type 0} (fernet : List ℕ → Option F) (encrypt : F → ℕ → String → String)
    (decrypt : F → String → Option String) where
  seal_box :
      (draw : ℕ) (s : String) (r : Box F × Outcome F)
      → (seal fernet encrypt decrypt draw s r).0 ≡ r.0
  seal_box draw s (b, returned f) = refl
  seal_box draw s (b, empty_key_file) = refl
  seal_box draw s (b, bad_key) = refl
  seal_box draw s (b, not_ascii) = refl
  seal_box draw s (b, undecryptable) = refl

  unseal_box :
      (token : String) (r : Box F × Outcome F) → (unseal fernet encrypt decrypt token r).0 ≡ r.0
  unseal_box token (b, returned f) = refl
  unseal_box token (b, empty_key_file) = refl
  unseal_box token (b, bad_key) = refl
  unseal_box token (b, not_ascii) = refl
  unseal_box token (b, undecryptable) = refl

  unfoldable pub step : Call → Box F → Box F
  unfolding encrypt_value decrypt_value reset_cache
  step (encrypting fresh raced draw v) b =
      (encrypt_value fernet encrypt decrypt fresh raced draw v b).0
  step (decrypting fresh raced v) b = (decrypt_value fernet encrypt decrypt fresh raced v b).0
  step restarting b = reset_cache fernet encrypt decrypt b

  unfoldable pub run : List Call → Box F → Box F
  unfolding step
  run [] b = b
  run (c ∷ cs) b = run cs (step c b)

  encrypt_text-HasKey :
      (fresh : List ℕ) (raced : Option (List ℕ)) (draw : ℕ) (s : String) (o : Option String) (f : F)
      (b : Box F)
      → HasKey fernet f b
      → HasKey fernet f (encrypt_text fernet encrypt decrypt fresh raced draw s o b).0
  encrypt_text-HasKey fresh raced draw s none f b h = elim (Bool-cases (is_empty s)) [
    | inl e ↦ rw e h
    | inr e ↦ rw e (
        subst (HasKey fernet f)
          (sym (seal_box draw s (load_or_create_fernet fernet encrypt decrypt fresh raced b)))
          (load-HasKey fernet encrypt decrypt fresh raced f b h).0)
  ]
  encrypt_text-HasKey fresh raced draw s (some token) f b h = h

  decrypt_text-HasKey :
      (fresh : List ℕ) (raced : Option (List ℕ)) (s : String) (o : Option String) (f : F)
      (b : Box F)
      → HasKey fernet f b
      → HasKey fernet f (decrypt_text fernet encrypt decrypt fresh raced s o b).0
  decrypt_text-HasKey fresh raced s none f b h = h
  decrypt_text-HasKey fresh raced s (some token) f b h =
      subst (HasKey fernet f)
        (sym (unseal_box token (load_or_create_fernet fernet encrypt decrypt fresh raced b)))
        (load-HasKey fernet encrypt decrypt fresh raced f b h).0

  reset_cache-HasKey :
      (f : F) (o : Option (List ℕ)) (cache : Option F)
      → IsKeyed fernet f o cache
      → IsKeyed fernet f o none
  reset_cache-HasKey f none cache h = absurd h
  reset_cache-HasKey f (some c) none h = h
  reset_cache-HasKey f (some c) (some g) h = h.0

  step-HasKey : (c : Call) (f : F) (b : Box F) → HasKey fernet f b → HasKey fernet f (step c b)
  unfolding step encrypt_value decrypt_value reset_cache
  step-HasKey (encrypting fresh raced draw none) f b h = h
  step-HasKey (encrypting fresh raced draw (some s)) f b h =
      encrypt_text-HasKey fresh raced draw s (after_text prefix s) f b h
  step-HasKey (decrypting fresh raced none) f b h = h
  step-HasKey (decrypting fresh raced (some s)) f b h =
      decrypt_text-HasKey fresh raced s (after_text prefix s) f b h
  step-HasKey restarting f b h = reset_cache-HasKey f b.key_file b.cached h

  run-HasKey : (cs : List Call) (f : F) (b : Box F) → HasKey fernet f b → HasKey fernet f (run cs b)
  unfolding run
  run-HasKey [] f b h = h
  run-HasKey (c ∷ cs) f b h = run-HasKey cs f (step c b) (step-HasKey c f b h)

  -- What a caller reads later who stored the outcome of an encryption.
  unfoldable pub read_back :
      List ℕ
      → Option (List ℕ)
      → List Call
      → Box F × Outcome (Option String)
      → Outcome (Option String)
  unfolding run decrypt_value
  read_back fresh raced cs (b, returned w) =
      (decrypt_value fernet encrypt decrypt fresh raced w (run cs b)).1
  read_back fresh raced cs (b, empty_key_file) = empty_key_file
  read_back fresh raced cs (b, bad_key) = bad_key
  read_back fresh raced cs (b, not_ascii) = not_ascii
  read_back fresh raced cs (b, undecryptable) = undecryptable

  unseal-returned :
      (f : F) (token s : String) (r : Box F × Outcome F)
      → r.1 ≡ returned f
      → is_ascii token ≡ true
      → decrypt f token ≡ some s
      → (unseal fernet encrypt decrypt token r).1 ≡ returned (some s)
  unseal-returned f token s r e a d =
      ap (λ o. (unseal fernet encrypt decrypt token (r.0, o)).1) e ∙ (rw (a, d) refl)

  seal-returned :
      (f : F) (draw : ℕ) (s : String) (r : Box F × Outcome F)
      → r.1 ≡ returned f
      → is_ascii (encrypt f draw s) ≡ true
      → seal fernet encrypt decrypt draw s r
        ≡ (r.0, returned (some (joined prefix (encrypt f draw s))))
  seal-returned f draw s r e a =
      ap (λ o. seal fernet encrypt decrypt draw s (r.0, o)) e ∙ (rw a refl)

  -- What the cryptography package documents, for one text: its tokens are URL-safe base64, and the
  -- key that made one gives the text back.
  module _ (s : String) (tokens : (f : F) (draw : ℕ) → is_ascii (encrypt f draw s) ≡ true)
      (decrypts : (f : F) (draw : ℕ) → decrypt f (encrypt f draw s) ≡ some s) where
    read_back-sealed :
        (fresh : List ℕ) (raced : Option (List ℕ)) (cs : List Call) (f : F) (draw : ℕ)
        (r : Box F × Outcome F)
        → HasKey fernet f r.0
        → r.1 ≡ returned f
        → read_back fresh raced cs (seal fernet encrypt decrypt draw s r) ≡ returned (some s)
    unfolding read_back decrypt_value
    read_back-sealed fresh raced cs f draw r k e =
        let after =
          load-HasKey fernet encrypt decrypt fresh raced f (run cs r.0) (run-HasKey cs f r.0 k) in
        ap (read_back fresh raced cs) (seal-returned f draw s r e (tokens f draw))
        ∙ unseal-returned f (encrypt f draw s) s
            (load_or_create_fernet fernet encrypt decrypt fresh raced (run cs r.0)) after.1
            (tokens f draw) (decrypts f draw)

    read_back-text :
        (fresh later : List ℕ) (raced other : Option (List ℕ)) (draw : ℕ) (cs : List Call)
        (b : Box F)
        → after_text prefix s ≡ none
        → Loaded fernet (load_or_create_fernet fernet encrypt decrypt fresh raced b)
        → read_back later other cs (encrypt_text fernet encrypt decrypt fresh raced draw s none b)
          ≡ returned (some s)
    unfolding read_back decrypt_value
    read_back-text fresh later raced other draw cs b p l = elim (Bool-cases (is_empty s)) [
      | inl h ↦ rw (h, p) refl
      | inr h ↦ rw h (
          read_back-sealed later other cs l.0 draw
            (load_or_create_fernet fernet encrypt decrypt fresh raced b) l.1 l.2)
    ]

    -- A secret that does not begin as an encrypted one is read back as it was after any calls of
    -- any processes and restarts, when the key file could be read before its encryption or did not
    -- exist, Fernet accepts the keys that are generated, and it encrypts the secret as documented.
    -- Neither the encryption nor the later reading then raises.
    pub decrypt_value-encrypt_value :
        (fresh later : List ℕ) (raced other : Option (List ℕ)) (draw : ℕ) (cs : List Call)
        (b : Box F)
        → after_text prefix s ≡ none
        → IsFresh fernet fresh
        → IsReadable fernet raced
        → IsSound fernet b.key_file b.cached
        → read_back later other cs
            (encrypt_value fernet encrypt decrypt fresh raced draw (some s) b)
          ≡ returned (some s)
    unfolding encrypt_value
    decrypt_value-encrypt_value fresh later raced other draw cs b p n r i = rw p (
        read_back-text fresh later raced other draw cs b p
          (load-Loaded fernet encrypt decrypt fresh raced b n r i))
