-- ===== src/Cache.antt =====
-- cache.py: the cache of deterministic LLM stages by tenant, model, prompt version and the SHA-256
-- of the content. The lock makes each method one step on the table; a payload is its JSON text.
use resu_align_lite.Prelude.{
  ℕ, ◌+◌, String, Bool, not, ◌&&◌, Option, none, some, List, [], ◌∷◌, ◌++◌, ltb, if◌then◌else◌,
}
use resu_align_lite.Prelude.Table.{same, filter}
pub mod Roundtrip

pub record Entry : Type 0 where
  pub tenant : String
  pub model : String
  pub prompt_version : String
  pub content_sha256 : String
  pub payload : String
  pub created_at : ℕ
  pub expires_at : ℕ

-- The primary key of an entry.
abbrev pub is_entry : String → String → String → String → Entry → Bool
is_entry tenant model version digest e =
    same e.tenant tenant
    && same e.model model
    && same e.prompt_version version
    && same e.content_sha256 digest

-- The payload of the row a SELECT with that condition fetches.
abbrev pub select_payload : (Entry → Bool) → List Entry → Option String
select_payload p [] = none
select_payload p (e ∷ es) = let rest = select_payload p es in if p e then some e.payload else rest

unfoldable pub prune_expired : ℕ → List Entry → List Entry
prune_expired now es = filter (λ e. not (ltb e.expires_at now)) es

-- `hashlib.sha256(...).hexdigest()` is `sha256`.
module _ (sha256 : String → String) where
  unfoldable pub get : String → String → String → String → ℕ → List Entry → Option String
  get tenant model version content now es =
      select_payload (λ e. is_entry tenant model version (sha256 content) e && ltb now e.expires_at)
        es

  -- `put` at `now`. `sweep` is the draw of `random()`, and `later` the clock of the sweep it makes.
  unfoldable pub put :
      String → String → String → String → String → ℕ → ℕ → Bool → ℕ → List Entry → List Entry
  put tenant model version content payload ttl_seconds now sweep later es =
      let digest = sha256 content in
      let stored : List Entry =
        filter (λ e. not (is_entry tenant model version digest e)) es
        ++ record {
          tenant = tenant;
          model = model;
          prompt_version = version;
          content_sha256 = digest;
          payload = payload;
          created_at = now;
          expires_at = now + ttl_seconds;
        }
          ∷ [] in
      if sweep then prune_expired later stored else stored

unfoldable pub clear : List Entry → List Entry
clear es = []
