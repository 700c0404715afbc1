-- ===== src/Token/Curl/Sound.antt =====
-- Where a fetched token comes from (pia/token_fetcher.go).
use pia_wg_config_generator.Base.{
  ◌||◌, Option, none, some, List, [], ◌∷◌, ◌≡◌, ◌⊎◌, refl, ap, ◌∙◌, inl, inr, Bool-cases,
}
use pia_wg_config_generator.Base.Text.{Text, codes, text_eq, trim_space}
use pia_wg_config_generator.Token.Curl.{
  CurlWorld, CurlRun, exited_well, exited_with, CurlResult, CurlError, fetched, too_many_attempts,
  curl_failed, Attempt, Next, Parsed, parsed, not_parsed, run_curl_token_request,
  parse_token_from_curl_output, split_curl_body_and_debug, is_too_many_attempts, judge_body,
  judge_run, try_path, try_attempts, last_answer, both, with_openssl, find_system_curl,
  find_openssl_curl, OpenSslCurl, not_set, found, missing_curl, fetch_token_via_curl,
}

-- A curl at this path ran well, and the body of its output parses to the token.
pub record IsFetchedBy (w : CurlWorld) (path t : Text) : Type 0 where
  pub stdout : Text
  pub ran : w.run path ≡ exited_well stdout
  pub parses : parse_token_from_curl_output w.decode (split_curl_body_and_debug stdout).0 ≡ parsed t

fetched-injective : {a b : Text} → fetched a ≡ fetched b → a ≡ b
fetched-injective h = cc

judge_body-fetched :
    (name : Text) (res : CurlResult) (next : Next) (p : Parsed) (t : Text)
    → judge_body name res next p ≡ fetched t
    → (p ≡ parsed t) ⊎ ((l : Option CurlError) × (next l ≡ fetched t))
unfolding judge_body
judge_body-fetched name res next (parsed token) t h =
    inl (ap (λ (x : Text). parsed x) (fetched-injective h))
judge_body-fetched name res next (not_parsed why) t h =
    elim (Bool-cases (
      text_eq (trim_space res.debug.http_code) (codes "429")
      || is_too_many_attempts res.raw_body)) [
        | inl limited ↦ absurd (not_fetched (rw limited at h))
        | inr on ↦ inr (_, (rw on at h))
      ]
  where
    not_fetched : too_many_attempts ≡ fetched t → ⊥
    not_fetched e = cc

try_run-fetched :
    (w : CurlWorld) (name : Text) (next : Next) (path t : Text) (run : CurlRun)
    → w.run path ≡ run
    → judge_run w name (run_curl_token_request run) next (run_curl_token_request run).exit_error
      ≡ fetched t
    → IsFetchedBy w path t ⊎ ((l : Option CurlError) × (next l ≡ fetched t))
unfolding judge_run run_curl_token_request
try_run-fetched w name next path t (exited_with err stdout stderr) r h = inr (_, h)
try_run-fetched w name next path t (exited_well stdout) r h =
    elim (judge_body-fetched name (run_curl_token_request (exited_well stdout)) next _ t h) [
      | inl p ↦ inl (record { stdout = stdout; ran = r; parses = p })
      | inr later ↦ inr later
    ]

-- An attempt of the list that fetched the token.
abbrev pub IsFetchedFrom : CurlWorld → List Attempt → Text → Type 0
IsFetchedFrom w [] t = ⊥
IsFetchedFrom w (a ∷ rest) t =
    ((path : Text) × (a.path ≡ some path) × IsFetchedBy w path t) ⊎ IsFetchedFrom w rest t

try_attempts-fetched :
    (w : CurlWorld) (attempts : List Attempt) (last : Option CurlError) (t : Text)
    → try_attempts w attempts last ≡ fetched t
    → IsFetchedFrom w attempts t
unfolding try_attempts last_answer try_path
try_attempts-fetched w [] none t h = absurd (cc)
try_attempts-fetched w [] (some e) t h = absurd (cc)
try_attempts-fetched w (a ∷ rest) last t h =
    by_path a.path refl h (λ (l : Option CurlError) (k : try_attempts w rest l ≡ fetched t).
      try_attempts-fetched w rest l t k)
  where
    by_path :
        (o : Option Text)
        → a.path ≡ o
        → try_path w a.name last (λ l. try_attempts w rest l) o ≡ fetched t
        → ((l : Option CurlError) → try_attempts w rest l ≡ fetched t → IsFetchedFrom w rest t)
        → IsFetchedFrom w (a ∷ rest) t
    by_path none e k ih = inr (ih last k)
    by_path (some path) e k ih =
        elim (try_run-fetched w a.name (λ l. try_attempts w rest l) path t (w.run path) refl k) [
          | inl by_it ↦ inl (path, e, by_it)
          | inr (l, later) ↦ inr (ih l later)
        ]

-- A curl that was found, the system's or the one set by CURL_PATH, fetched the token.
abbrev pub IsFetched : CurlWorld → Text → Text → Type 0
IsFetched w curl_path t =
    (path : Text) × ((find_system_curl w ≡ some path)
      ⊎ (find_openssl_curl w curl_path ≡ found path))
    × IsFetchedBy w path t

of_both :
    (w : CurlWorld) (curl_path t : Text) (openssl : Option Text)
    → ((path : Text) → openssl ≡ some path → find_openssl_curl w curl_path ≡ found path)
    → IsFetchedFrom w (both w openssl) t
    → IsFetched w curl_path t
of_both w curl_path t openssl known (inl (path, e, by_it)) = (path, inl e, by_it)
of_both w curl_path t openssl known (inr (inl (path, e, by_it))) = (path, inr (known path e), by_it)
of_both w curl_path t openssl known (inr (inr x)) = elim x [ ]

some-injective : {a b : Text} → some a ≡ some b → a ≡ b
some-injective q = cc

-- When fetchTokenViaCurl returns a token, a curl that was found, the system's or the one set by
-- CURL_PATH, has run without an error, and the token is what the body of its output parses to.
pub fetch_token_via_curl-IsFetched :
    (w : CurlWorld) (curl_path t : Text)
    → fetch_token_via_curl w curl_path ≡ fetched t
    → IsFetched w curl_path t
unfolding fetch_token_via_curl with_openssl
fetch_token_via_curl-IsFetched w curl_path t h = by_openssl (find_openssl_curl w curl_path) refl h
  where
    not_fetched : {x : CurlError} → curl_failed x ≡ fetched t → ⊥
    not_fetched k = cc

    by_openssl :
        (o : OpenSslCurl)
        → find_openssl_curl w curl_path ≡ o
        → with_openssl w o ≡ fetched t
        → IsFetched w curl_path t
    by_openssl not_set e k =
        of_both w curl_path t none (λ path q. absurd (cc))
          (try_attempts-fetched w (both w none) none t k)
    by_openssl (found p) e k =
        of_both w curl_path t (some p) (λ path q. e ∙ ap (λ (x : Text). found x) (some-injective q))
          (try_attempts-fetched w (both w (some p)) none t k)
    by_openssl (missing_curl x) e k = absurd (not_fetched k)
