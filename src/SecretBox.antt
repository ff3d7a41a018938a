-- ===== src/SecretBox.antt =====
-- secret_box.py: encryption of API keys at rest. Fernet of the cryptography package is a parameter,
-- as are the fresh keys it generates and the draws of its tokens. Bytes are numbers.
use Prim.Native.Char.{code}
use resu_align_lite.Prelude.{
  ℕ, String, Bool, true, false, ◌&&◌, ◌||◌, Option, none, some, List, [], ◌∷◌, ◌++◌, leb, ltb, ◌==◌,
  if◌then◌else◌,
}
use resu_align_lite.Prelude.Texts.{is_empty}
pub mod KeyFile
pub mod Recovery
pub mod Stable

-- `bytes.isspace` of one byte
abbrev pub is_space_byte : ℕ → Bool
is_space_byte n = (leb 9 n && leb n 13) || n == 32

abbrev pub is_blank : List ℕ → Bool
is_blank [] = true
is_blank (c ∷ s) = false

abbrev pub lstrip_bytes : List ℕ → List ℕ
lstrip_bytes [] = []
lstrip_bytes (c ∷ s) = let rest = lstrip_bytes s in if is_space_byte c then rest else c ∷ s

abbrev pub rstrip_bytes : List ℕ → List ℕ
rstrip_bytes [] = []
rstrip_bytes (c ∷ s) =
    let rest = rstrip_bytes s in if is_space_byte c && is_blank rest then [] else c ∷ rest

-- `path.read_bytes().strip()` of what the file holds
unfoldable pub strip_bytes : List ℕ → List ℕ
strip_bytes s = rstrip_bytes (lstrip_bytes s)

-- One text after another, as an f-string puts them.
abbrev pub joined : String → String → String
joined String.[] t = t
joined (String.◌∷◌ c s) t = String.◌∷◌ c (joined s t)

-- What follows a prefix, when the text has it.
abbrev pub after_text : String → String → Option String
after_text String.[] s = some s
after_text (String.◌∷◌ c p) String.[] = none
after_text (String.◌∷◌ c p) (String.◌∷◌ d s) =
    let rest = after_text p s in if code c == code d then rest else none

-- Whether `encode("ascii")` and `decode("ascii")` accept a text.
abbrev pub is_ascii : String → Bool
is_ascii String.[] = true
is_ascii (String.◌∷◌ c s) = ltb (code c) 128 && is_ascii s

abbrev pub prefix : String
prefix = "enc:v1:"

-- What a call returns, or the exception it raises: the RuntimeError of an empty key file, the
-- ValueError of a key that Fernet refuses, the UnicodeError of a token outside ASCII, the
-- RuntimeError of a token that Fernet refuses.
pub data Outcome (A : Type 0) : Type 0 where
  returned : A → Outcome A
  empty_key_file bad_key not_ascii undecryptable : Outcome A

-- `_key_file` as its content, shared by the processes, and `_fernet` of one process.
pub record Box (F : Type 0) : Type 0 where
  pub key_file : Option (List ℕ)
  pub cached : Option F

-- `Fernet(key)`, which fails on a malformed key, with `encrypt` of a draw and a text and `decrypt`,
-- which fails on a token that was not made with the key.
module _ {F : Type 0} (fernet : List ℕ → Option F) (encrypt : F → ℕ → String → String)
    (decrypt : F → String → Option String) where
  abbrev pub keep_fernet : Option F → Box F → Box F × Outcome F
  keep_fernet none b = (b, bad_key)
  keep_fernet (some f) b = (record b { cached = some f }, returned f)

  -- The key file does not exist. `raced` is what another process writes to it before `os.open`.
  abbrev pub create_key : List ℕ → Option (List ℕ) → Box F → Box F × Outcome F
  create_key fresh none b =
      keep_fernet (fernet fresh) (record b { key_file = some (fresh ++ 10 ∷ []) })
  create_key fresh (some written) b =
      keep_fernet (fernet (strip_bytes written)) (record b { key_file = some written })

  abbrev pub read_key : List ℕ → Option (List ℕ) → Option (List ℕ) → Box F → Box F × Outcome F
  read_key fresh raced none b = create_key fresh raced b
  read_key fresh raced (some content) b =
      let key = strip_bytes content in
      if is_blank key then (b, empty_key_file) else keep_fernet (fernet key) b

  abbrev pub load_fernet : List ℕ → Option (List ℕ) → Option F → Box F → Box F × Outcome F
  load_fernet fresh raced (some f) b = (b, returned f)
  load_fernet fresh raced none b = read_key fresh raced b.key_file b

  -- `_load_or_create_fernet`
  unfoldable pub load_or_create_fernet : List ℕ → Option (List ℕ) → Box F → Box F × Outcome F
  unfolding strip_bytes
  load_or_create_fernet fresh raced b = load_fernet fresh raced b.cached b

  unfoldable pub reset_cache : Box F → Box F
  reset_cache b = record b { cached = none }

  abbrev pub seal : ℕ → String → Box F × Outcome F → Box F × Outcome (Option String)
  seal draw s (b, returned f) =
      let token = encrypt f draw s in
      (b, if is_ascii token then returned (some (joined prefix token)) else not_ascii)
  seal draw s (b, empty_key_file) = (b, empty_key_file)
  seal draw s (b, bad_key) = (b, bad_key)
  seal draw s (b, not_ascii) = (b, not_ascii)
  seal draw s (b, undecryptable) = (b, undecryptable)

  abbrev pub encrypt_text :
      List ℕ
      → Option (List ℕ)
      → ℕ
      → String
      → Option String
      → Box F
      → Box F × Outcome (Option String)
  encrypt_text fresh raced draw s (some token) b = (b, returned (some s))
  encrypt_text fresh raced draw s none b =
      if is_empty s
      then (b, returned (some s))
      else seal draw s (load_or_create_fernet fresh raced b)

  unfoldable pub encrypt_value :
      List ℕ → Option (List ℕ) → ℕ → Option String → Box F → Box F × Outcome (Option String)
  unfolding load_or_create_fernet
  encrypt_value fresh raced draw none b = (b, returned none)
  encrypt_value fresh raced draw (some s) b =
      encrypt_text fresh raced draw s (after_text prefix s) b

  abbrev pub opened : Option String → Outcome (Option String)
  opened none = undecryptable
  opened (some s) = returned (some s)

  abbrev pub unseal : String → Box F × Outcome F → Box F × Outcome (Option String)
  unseal token (b, returned f) = (b, if is_ascii token then opened (decrypt f token) else not_ascii)
  unseal token (b, empty_key_file) = (b, empty_key_file)
  unseal token (b, bad_key) = (b, bad_key)
  unseal token (b, not_ascii) = (b, not_ascii)
  unseal token (b, undecryptable) = (b, undecryptable)

  abbrev pub decrypt_text :
      List ℕ → Option (List ℕ) → String → Option String → Box F → Box F × Outcome (Option String)
  decrypt_text fresh raced s none b = (b, returned (some s))
  decrypt_text fresh raced s (some token) b = unseal token (load_or_create_fernet fresh raced b)

  -- A value that is empty has no prefix, and is returned as it is.
  unfoldable pub decrypt_value :
      List ℕ → Option (List ℕ) → Option String → Box F → Box F × Outcome (Option String)
  unfolding load_or_create_fernet
  decrypt_value fresh raced none b = (b, returned none)
  decrypt_value fresh raced (some s) b = decrypt_text fresh raced s (after_text prefix s) b
