-- ===== src/SecretBox/KeyFile.antt =====
-- The key file of secret_box.py: when a load finds a key in it, and which.
use resu_align_lite.Prelude.{
  ℕ, String, ◌≡◌, refl, sym, ap, subst, ◌∙◌, inl, inr, Bool, true, false, not, ◌&&◌, Option, none,
  some, List, [], ◌∷◌, ◌++◌, Bool-cases,
}
use resu_align_lite.Prelude.{
  ℕ, String, ◌≡◌, refl, sym, ap, subst, ◌∙◌, inl, inr, Bool, true, false, not, ◌&&◌, Option, none,
  some, List, [], ◌∷◌, ◌++◌, Bool-cases,
}
use resu_align_lite.SecretBox.{
  is_space_byte, is_blank, rstrip_bytes, strip_bytes, Outcome, returned, Box, create_key, read_key,
  load_fernet, load_or_create_fernet,
}

-- No byte of a key is a space.
abbrev pub is_solid : List ℕ → Bool
is_solid [] = true
is_solid (c ∷ s) = not (is_space_byte c) && is_solid s

rstrip_bytes-line : (k : List ℕ) → is_solid k ≡ true → rstrip_bytes (k ++ 10 ∷ []) ≡ k
rstrip_bytes-line [] h = refl
rstrip_bytes-line (c ∷ k) h = elim (Bool-cases (is_space_byte c)) [
  | inl e ↦ let m : false ≡ true = (rw e at h) in cc
  | inr e ↦ rw (e, rstrip_bytes-line k (rw e at h)) refl
]

-- A key is read back from the line that it was written on.
strip_bytes-line : (k : List ℕ) → is_solid k ≡ true → strip_bytes (k ++ 10 ∷ []) ≡ k
unfolding strip_bytes
strip_bytes-line [] h = refl
strip_bytes-line (c ∷ k) h = elim (Bool-cases (is_space_byte c)) [
  | inl e ↦ let m : false ≡ true = (rw e at h) in cc
  | inr e ↦ rw (e, e, rstrip_bytes-line k (rw e at h)) refl
]

module _ {F : Type 0} (fernet : List ℕ → Option F) where
  -- The content of a key file that holds a given key.
  abbrev pub IsKey : F → List ℕ → Type 0
  IsKey f c = (is_blank (strip_bytes c) ≡ false) × (fernet (strip_bytes c) ≡ some f)

  -- The key file holds the key, and no other is cached.
  abbrev pub IsKeyed : F → Option (List ℕ) → Option F → Type 0
  IsKeyed f none cache = ⊥
  IsKeyed f (some c) none = IsKey f c
  IsKeyed f (some c) (some g) = IsKey f c × (g ≡ f)

  abbrev pub HasKey : F → Box F → Type 0
  HasKey f b = IsKeyed f b.key_file b.cached

  -- A key file from which Fernet can be made.
  abbrev pub IsReadable : Option (List ℕ) → Type 0
  IsReadable none = Unit
  IsReadable (some c) = (f : F) × IsKey f c

  -- Before the first load: no key file and no cached key, or a key file that can be read, with
  -- none cached but its own.
  abbrev pub IsSound : Option (List ℕ) → Option F → Type 0
  IsSound o none = IsReadable o
  IsSound o (some g) = IsKeyed g o none

  abbrev pub IsFresh : List ℕ → Type 0
  IsFresh k = (is_solid k ≡ true) × (is_blank k ≡ false) × ((f : F) × (fernet k ≡ some f))

  abbrev pub Loaded : Box F × Outcome F → Type 0
  Loaded r = (f : F) × HasKey f r.0 × (r.1 ≡ returned f)

module _ {F : Type 0} (fernet : List ℕ → Option F) (encrypt : F → ℕ → String → String)
    (decrypt : F → String → Option String) where
  -- A load with a key file at hand finds its key, whatever the fresh key and the other processes.
  read_key-HasKey :
      (fresh : List ℕ) (raced : Option (List ℕ)) (f : F) (o : Option (List ℕ)) (b : Box F)
      → o ≡ b.key_file
      → IsKeyed fernet f o none
      → (HasKey fernet f (read_key fernet encrypt decrypt fresh raced o b).0)
        × ((read_key fernet encrypt decrypt fresh raced o b).1 ≡ returned f)
  read_key-HasKey fresh raced f none b e h = absurd h
  read_key-HasKey fresh raced f (some c) b e h =
      rw (h.0, h.1) (subst (λ o. IsKeyed fernet f o (some f)) e (h, refl), refl)

  load_fernet-HasKey :
      (fresh : List ℕ) (raced : Option (List ℕ)) (f : F) (cache : Option F) (b : Box F)
      → cache ≡ b.cached
      → IsKeyed fernet f b.key_file cache
      → (HasKey fernet f (load_fernet fernet encrypt decrypt fresh raced cache b).0)
        × ((load_fernet fernet encrypt decrypt fresh raced cache b).1 ≡ returned f)
  load_fernet-HasKey fresh raced f none b e h = read_key-HasKey fresh raced f b.key_file b refl h
  load_fernet-HasKey fresh raced f (some g) b e h =
      (subst (λ o. IsKeyed fernet f b.key_file o) e h, ap returned (own b.key_file h))
    where
      own : (o : Option (List ℕ)) → IsKeyed fernet f o (some g) → g ≡ f
      own none k = absurd k
      own (some c) k = k.1

  pub load-HasKey :
      (fresh : List ℕ) (raced : Option (List ℕ)) (f : F) (b : Box F)
      → HasKey fernet f b
      → (HasKey fernet f (load_or_create_fernet fernet encrypt decrypt fresh raced b).0)
        × ((load_or_create_fernet fernet encrypt decrypt fresh raced b).1 ≡ returned f)
  unfolding load_or_create_fernet
  load-HasKey fresh raced f b h = load_fernet-HasKey fresh raced f b.cached b refl h

  create_key-Loaded :
      (fresh : List ℕ) (raced : Option (List ℕ)) (b : Box F)
      → IsFresh fernet fresh
      → IsReadable fernet raced
      → Loaded fernet (create_key fernet encrypt decrypt fresh raced b)
  create_key-Loaded fresh none b h r = rw h.2.1 (
    h.2.0,
    (
      (
        subst (λ k. is_blank k ≡ false) (sym (strip_bytes-line fresh h.0)) h.1,
        ap fernet (strip_bytes-line fresh h.0) ∙ h.2.1,
      ),
      refl,
    ),
    refl,
  )
  create_key-Loaded fresh (some c) b h r = rw r.1.1 (r.0, (r.1, refl), refl)

  read_key-Loaded :
      (fresh : List ℕ) (raced o : Option (List ℕ)) (b : Box F)
      → o ≡ b.key_file
      → IsFresh fernet fresh
      → IsReadable fernet raced
      → IsReadable fernet o
      → Loaded fernet (read_key fernet encrypt decrypt fresh raced o b)
  read_key-Loaded fresh raced none b e h r s = create_key-Loaded fresh raced b h r
  read_key-Loaded fresh raced (some c) b e h r s =
      let read = read_key-HasKey fresh raced s.0 (some c) b e s.1 in (s.0, read.0, read.1)

  load_fernet-Loaded :
      (fresh : List ℕ) (raced : Option (List ℕ)) (cache : Option F) (b : Box F)
      → cache ≡ b.cached
      → IsFresh fernet fresh
      → IsReadable fernet raced
      → IsSound fernet b.key_file cache
      → Loaded fernet (load_fernet fernet encrypt decrypt fresh raced cache b)
  load_fernet-Loaded fresh raced none b e h r s =
      read_key-Loaded fresh raced b.key_file b refl h r s
  load_fernet-Loaded fresh raced (some g) b e h r s =
      (g, subst (λ o. IsKeyed fernet g b.key_file o) e (own b.key_file s), refl)
    where
      own : (o : Option (List ℕ)) → IsKeyed fernet g o none → IsKeyed fernet g o (some g)
      own none k = absurd k
      own (some c) k = (k, refl)

  pub load-Loaded :
      (fresh : List ℕ) (raced : Option (List ℕ)) (b : Box F)
      → IsFresh fernet fresh
      → IsReadable fernet raced
      → IsSound fernet b.key_file b.cached
      → Loaded fernet (load_or_create_fernet fernet encrypt decrypt fresh raced b)
  unfolding load_or_create_fernet
  load-Loaded fresh raced b h r s = load_fernet-Loaded fresh raced b.cached b refl h r s
