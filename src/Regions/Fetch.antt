-- ===== src/Regions/Fetch.antt =====
-- getServerList (pia/pia.go): the server list behind its download, which PIA follows by a blob.
use mathlib.Core.List
use pia_wg_config_generator.Base.{
  false, Option, none, some, List, [], ◌∷◌, ◌++◌, ◌≡◌, refl, sym, ap, ◌∙◌,
}
use pia_wg_config_generator.Base.Text.{Text, codes, has_prefix}
use pia_wg_config_generator.Base.Text.Search.{
  split_last, split_last-append, split_last-none, has_byte,
}
use pia_wg_config_generator.Api.{Answer, ok, failed}
use pia_wg_config_generator.Regions.{Region}

-- The text up to the last closing brace.
safe_json : Option (Text × Text) → Option Text
safe_json none = none
safe_json (some (before, found)) = some (before ++ codes "}")

decoded_list : (Text → Answer (List Region)) → Option Text → Answer (List Region)
decoded_list decode none = failed (codes "getServerList: response contained no JSON object")
decoded_list decode (some json) = decode json

-- getServerList, of the body that was read, or the error of the download; `decode` is json.Unmarshal.
unfoldable pub get_server_list : (Text → Answer (List Region)) → Answer Text → Answer (List Region)
unfolding safe_json decoded_list
get_server_list decode (failed e) = failed e
get_server_list decode (ok body) = decoded_list decode (safe_json (split_last (codes "}") body))

last_brace :
    (blob : Text)
    → has_byte b'}' blob ≡ false
    → split_last (codes "}") (b'}' ∷ blob) ≡ some ([], b'}' ∷ blob)
unfolding split_last has_prefix
last_brace blob h =
    let none_in : split_last (codes "}") blob ≡ none =
      ap (split_last (codes "}")) (sym (List.append-nil blob))
      ∙ split_last-none b'}' [] blob [] h refl in
    rw none_in refl

-- A blob without braces behind the JSON object is cut off.
get_server_list-blob :
    (decode : Text → Answer (List Region)) (json blob : Text)
    → has_byte b'}' blob ≡ false
    → get_server_list decode (ok (json ++ (b'}' ∷ blob))) ≡ decode (json ++ codes "}")
unfolding get_server_list safe_json decoded_list
get_server_list-blob decode json blob h =
    rw (split_last-append (codes "}") json (b'}' ∷ blob) (last_brace blob h)) refl
