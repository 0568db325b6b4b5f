-- ===== src/Api/Tokens.antt =====
-- Who gets past auth.RequireBearer of internal/auth/token.go with the tokens that loadEndpointToken of
-- internal/config/config.go finds.
use dmz_collector.Base.{
  String, Bool, true, false, ◌&&◌, not, ◌≡◌, refl, ◌==◌, eq_iff, Bool-cases, inl, inr, ap, ◌∙◌,
  if◌then◌else◌, case_both,
}
use dmz_collector.Text.{trim_space}
use dmz_collector.Text.Trims.{trim_space-trim_space}
use dmz_collector.Config.Environment.{EnvironmentLib, load_endpoint_token, invalid_token_file}
use dmz_collector.App.{App}
use dmz_collector.Api.{Request, Handler, fail, require_bearer}

-- A token that is not the empty text stays so when it is trimmed once more.
still_set : (s : String) → (trim_space (trim_space s) == "") ≡ (trim_space s == "")
still_set s = ap (λ (t : String). t == "") (trim_space-trim_space s)

placeholder_set : (trim_space invalid_token_file == "") ≡ false
unfolding trim_space
placeholder_set = refl

-- No file is named, and neither variable holds a token.
abbrev pub unguarded : EnvironmentLib → String → String → String → Bool
unguarded lib env_key file_key fallback =
    (trim_space (lib.get file_key) == "")
    && (trim_space (lib.get env_key) == "")
    && (trim_space fallback == "")

blank_token :
    (lib : EnvironmentLib) (env_key file_key fallback : String)
    → (trim_space (load_endpoint_token lib env_key file_key fallback) == "")
      ≡ unguarded lib env_key file_key fallback
unfolding load_endpoint_token
blank_token lib env_key file_key fallback =
    elim (Bool-cases (trim_space (lib.get file_key) == "")) [
      | inr named ↦ rw named (
          case_both (λ (t : String). (trim_space t == "") ≡ false)
            (lib.read_file (trim_space (lib.get file_key))) invalid_token_file _
            (λ unreadable. placeholder_set) (λ text found. from_file text))
      | inl none_named ↦ rw none_named (elim (Bool-cases (trim_space (lib.get env_key) == "")) [
        | inr own ↦ rw own (still_set (lib.get env_key) ∙ own)
        | inl blank ↦ rw blank (still_set fallback)
      ])
    ]
  where
    from_file :
        (text : String)
        → (trim_space (if not (trim_space text == "") then trim_space text else invalid_token_file)
            == "")
          ≡ false
    from_file text = elim (Bool-cases (trim_space text == "")) [
      | inl blank ↦ rw blank placeholder_set
      | inr set ↦ rw set (still_set text ∙ set)
    ]

-- A request without the header Authorization is handed to the handler behind a route's token, as
-- loadEndpointToken finds it, if no file is named for it, its variable is blank and so is the
-- collector's token that stands in; otherwise it is answered 401 and changes nothing. A file that is
-- named but cannot be read, or is blank, opens nothing to it.
pub endpoint_token_lem :
    (lib : EnvironmentLib) (env_key file_key fallback : String) (next : Handler) (r : Request)
    (a : App)
    → r.authorization ≡ ""
    → require_bearer (load_endpoint_token lib env_key file_key fallback) next r a ≡ (
        if unguarded lib env_key file_key fallback
        then next r a
        else fail 401 "missing bearer token" a)
unfolding require_bearer
endpoint_token_lem lib env_key file_key fallback next r a bare =
    let none_sent : (r.authorization == "") ≡ true = (eq_iff r.authorization "").1 bare in
    rw (blank_token lib env_key file_key fallback, none_sent) refl
