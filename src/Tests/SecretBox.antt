-- ===== src/Tests/SecretBox.antt =====
-- Runs of secret_box.py, with keys of two bytes and a token that begins with the mark of its key.
use resu_align_lite.Prelude.{
  ℕ, String, ◌≡◌, refl, Bool, true, false, Option, none, some, List, [], ◌∷◌, leb, ◌==◌,
  if◌then◌else◌,
}
use resu_align_lite.SecretBox.{
  joined, after_text, is_ascii, returned, bad_key, undecryptable, Box, encrypt_value, decrypt_value,
}
use resu_align_lite.SecretBox.Recovery.{
  Call, encrypting, decrypting, restarting, read_back, decrypt_value-encrypt_value,
}
use resu_align_lite.SecretBox.Stable.{encrypt_value_idem}

-- A key is two equal bytes: whether they are low is what `Fernet` keeps of it.
abbrev toy_fernet : List ℕ → Option Bool
toy_fernet (a ∷ b ∷ []) = if a == b then some (leb a 70) else none
toy_fernet _ = none

abbrev mark : Bool → String
mark true = "A"
mark false = "B"

abbrev toy_encrypt : Bool → ℕ → String → String
toy_encrypt f draw s = joined (mark f) s

abbrev toy_decrypt : Bool → String → Option String
toy_decrypt f token = after_text (mark f) token

abbrev new_box : Box Bool
new_box = record { key_file = none; cached = none }

abbrev secret : String
secret = "sk-1"

abbrev later_calls : List Call
later_calls =
    restarting
    ∷ encrypting (80 ∷ 80 ∷ []) none 2 (some "sk-2")
    ∷ decrypting (80 ∷ 80 ∷ []) (some (80 ∷ 80 ∷ [])) (some "enc:v1:Bx")
    ∷ restarting
    ∷ []

stored_form :
    (encrypt_value toy_fernet toy_encrypt toy_decrypt (65 ∷ 65 ∷ []) none 1 (some secret) new_box).1
    ≡ returned (some "enc:v1:Ask-1")
unfolding encrypt_value
stored_form = refl

-- The key is lost: a new one is created, and the secret is not read.
key_lost :
    decrypt_value toy_fernet toy_encrypt toy_decrypt
      (80 ∷ 80 ∷ [])
      none
      (some "enc:v1:Ask-1")
      new_box
    ≡ (record { key_file = some (80 ∷ 80 ∷ 10 ∷ []); cached = some false }, undecryptable)
unfolding decrypt_value
key_lost = refl

-- The loser of a race reads a key file that the winner has created and not yet written.
race_lost :
    (encrypt_value toy_fernet toy_encrypt toy_decrypt
      (65 ∷ 65 ∷ [])
      (some [])
      1
      (some secret)
      new_box).1
    ≡ bad_key
unfolding encrypt_value
race_lost = refl

toy_tokens : (f : Bool) (draw : ℕ) → is_ascii (toy_encrypt f draw secret) ≡ true
toy_tokens true draw = refl
toy_tokens false draw = refl

toy_decrypts : (f : Bool) (draw : ℕ) → toy_decrypt f (toy_encrypt f draw secret) ≡ some secret
toy_decrypts true draw = refl
toy_decrypts false draw = refl

decrypt_value-encrypt_value_example :
    read_back toy_fernet toy_encrypt toy_decrypt
      (80 ∷ 80 ∷ [])
      none
      later_calls
      (encrypt_value toy_fernet toy_encrypt toy_decrypt (65 ∷ 65 ∷ []) none 1 (some secret) new_box)
    ≡ returned (some secret)
decrypt_value-encrypt_value_example =
    decrypt_value-encrypt_value toy_fernet toy_encrypt toy_decrypt secret toy_tokens toy_decrypts
      (65 ∷ 65 ∷ []) (80 ∷ 80 ∷ []) none none 1 later_calls new_box refl (refl, refl, (true, refl))
      tt tt

encrypt_value_idem_example :
    encrypt_value toy_fernet toy_encrypt toy_decrypt [] none 5 (some "enc:v1:Ask-1") new_box
    ≡ (new_box, returned (some "enc:v1:Ask-1"))
encrypt_value_idem_example =
    encrypt_value_idem toy_fernet toy_encrypt toy_decrypt (65 ∷ 65 ∷ []) none 1 (some secret)
      (some "enc:v1:Ask-1") new_box stored_form [] none 5 new_box
