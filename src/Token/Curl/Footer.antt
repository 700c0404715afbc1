-- ===== src/Token/Curl/Footer.antt =====
-- The footer that curl's -w option appends is read back (pia/token_fetcher.go).
use pia_wg_config_generator.Base.{
  ℕ, true, false, none, some, List, [], ◌∷◌, ◌++◌, ◌≡◌, refl, ap, ◌∙◌,
}
use pia_wg_config_generator.Base.Text.{
  Text, codes, trim_space, trim_right_byte, has_prefix, trim_prefix, split_byte,
}
use pia_wg_config_generator.Base.Text.Search.{
  split_last, split_last-append, split_last-none, has_byte, has_byte-append, split_byte-append,
}
use pia_wg_config_generator.Token.Curl.{
  split_curl_body_and_debug, split_at, extract_footer_value, first_value,
}

-- What `-w "\nhttp_code=%{http_code}\ncontent_type=%{content_type}\nfinal_url=%{url_effective}\n"`
-- prints.
abbrev pub footer : Text → Text → Text → Text
footer code kind url =
    b'\n' ∷ (codes "http_code=" ++ code)
    ++ (b'\n' ∷ (codes "content_type=" ++ kind)
        ++ (b'\n' ∷ (codes "final_url=" ++ url) ++ (b'\n' ∷ [])))

abbrev mark : Text
mark = codes "\nhttp_code="

split_last_skip :
    (c : ℕ) (p rest : Text)
    → split_last p rest ≡ none
    → has_prefix (c ∷ rest) p ≡ false
    → split_last p (c ∷ rest) ≡ none
unfolding split_last
split_last_skip c p rest h k = rw (h, k) refl

split_last_here :
    (c : ℕ) (p rest : Text)
    → split_last p rest ≡ none
    → has_prefix (c ∷ rest) p ≡ true
    → split_last p (c ∷ rest) ≡ some ([], c ∷ rest)
unfolding split_last
split_last_here c p rest h k = rw (h, k) refl

module _ (code kind url : Text) (code_line : has_byte b'\n' code ≡ false)
    (kind_line : has_byte b'\n' kind ≡ false) (url_line : has_byte b'\n' url ≡ false) where
  code_text_line : has_byte b'\n' (codes "http_code=" ++ code) ≡ false
  code_text_line = has_byte-append b'\n' (codes "http_code=") code refl code_line

  kind_text_line : has_byte b'\n' (codes "content_type=" ++ kind) ≡ false
  kind_text_line = has_byte-append b'\n' (codes "content_type=") kind refl kind_line

  url_text_line : has_byte b'\n' (codes "final_url=" ++ url) ≡ false
  url_text_line = has_byte-append b'\n' (codes "final_url=") url refl url_line

  abbrev from_url : Text
  from_url = (codes "final_url=" ++ url) ++ (b'\n' ∷ [])

  abbrev from_kind : Text
  from_kind = (codes "content_type=" ++ kind) ++ (b'\n' ∷ from_url)

  split_last-from_url : split_last mark from_url ≡ none
  split_last-from_url =
      split_last-none b'\n' (codes "http_code=") (codes "final_url=" ++ url) (b'\n' ∷ [])
        url_text_line (unfold split_last has_prefix in refl)

  split_last-from_kind : split_last mark from_kind ≡ none
  split_last-from_kind =
      split_last-none b'\n' (codes "http_code=") (codes "content_type=" ++ kind) (b'\n' ∷ from_url)
        kind_text_line
        (split_last_skip b'\n' mark from_url split_last-from_url (unfold has_prefix in refl))

  split_last-footer : split_last mark (footer code kind url) ≡ some ([], footer code kind url)
  split_last-footer =
      split_last_here b'\n' mark _
        (split_last-none b'\n' (codes "http_code=") (codes "http_code=" ++ code) (b'\n' ∷ from_kind)
          code_text_line
          (split_last_skip b'\n' mark from_kind split_last-from_kind (unfold has_prefix in refl)))
        (unfold has_prefix in refl)

  lines :
      split_byte b'\n' (footer code kind url)
      ≡ []
        ∷ (codes "http_code=" ++ code)
        ∷ (codes "content_type=" ++ kind)
        ∷ (codes "final_url=" ++ url)
        ∷ []
        ∷ []
  lines =
      split_byte-append b'\n' [] _ refl
      ∙ ap (λ (ls : List Text). [] ∷ ls)
          (split_byte-append b'\n' (codes "http_code=" ++ code) _ code_text_line
            ∙ ap (λ (ls : List Text). (codes "http_code=" ++ code) ∷ ls)
                (split_byte-append b'\n' (codes "content_type=" ++ kind) _ kind_text_line
                  ∙ ap (λ (ls : List Text). (codes "content_type=" ++ kind) ∷ ls)
                      (split_byte-append b'\n' (codes "final_url=" ++ url) [] url_text_line
                        ∙ ap (λ (ls : List Text). (codes "final_url=" ++ url) ∷ ls)
                            (unfold split_byte in refl))))

-- What curl prints behind a body comes back from the split: the body without newlines at its end, and
-- the three values without blanks around them, when no value has a newline. (The body may hold
-- anything, a footer of its own included.)
pub split_curl_body_and_debug-footer :
    (body code kind url : Text)
    → has_byte b'\n' code ≡ false
    → has_byte b'\n' kind ≡ false
    → has_byte b'\n' url ≡ false
    → split_curl_body_and_debug (body ++ footer code kind url) ≡ (
      trim_right_byte b'\n' body,
      record {
        http_code = trim_space code;
        content_type = trim_space kind;
        final_url = trim_space url;
      },
    )
unfolding split_curl_body_and_debug split_at extract_footer_value first_value has_prefix trim_prefix
split_curl_body_and_debug-footer body code kind url c k u =
    rw
      (
        split_last-append mark body (footer code kind url) (split_last-footer code kind url c k u),
        lines code kind url c k u,
      )
      refl
