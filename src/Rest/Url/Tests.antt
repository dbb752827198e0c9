-- ===== src/Rest/Url/Tests.antt =====
-- Urls on concrete strings.
use wasm_trustzone.Base.{
  ℕ, List, [], ◌∷◌, ◌++◌, ◌+◌, ◌≡◌, ◌≢◌, ◌↔◌, ◌||◌, ◌==◌, false, refl, true, take, length,
}
use wasm_trustzone.Aerogel.CString.{str_eq, starts_with}
use wasm_trustzone.Rest.Url.{
  skip_slash, trimmed_length, check_url_start, match_url, slash_offset, same_start, url_offset,
  match_tree, match_pattern,
}
use wasm_trustzone.Rest.Url.Segments.{Continues, check_url_start_iff, end_of, segment}
use wasm_trustzone.Rest.Url.Patterns.{match_url-kinds}

-- "/ab?c" and "/ab/".
abbrev ab_query : List ℕ
ab_query = b'/' ∷ b'a' ∷ b'b' ∷ b'?' ∷ b'c' ∷ []

abbrev ab_dir : List ℕ
ab_dir = b'/' ∷ b'a' ∷ b'b' ∷ b'/' ∷ []

query_start : check_url_start ab_query ab_dir ≡ 4
unfolding check_url_start trimmed_length skip_slash url_offset same_start str_eq slash_offset
query_start = refl

dir_match : match_url ab_dir ab_dir ≡ true
unfolding match_url trimmed_length skip_slash match_pattern match_tree same_start str_eq
dir_match = refl

check_url_start_iff_example : (check_url_start ab_query ab_dir ≢ 0) ↔ (
    (rest : List ℕ) × (Continues ab_query ab_dir rest
      × (check_url_start ab_query ab_dir
          ≡ end_of rest (slash_offset ab_query + length (segment ab_dir)))))
check_url_start_iff_example = check_url_start_iff ab_query ab_dir

abbrev ab : List ℕ
ab = b'a' ∷ b'b' ∷ []

some_left : (trimmed_length (skip_slash ab_query) == 0) ≡ false
unfolding skip_slash trimmed_length
some_left = refl

match_url-kinds_example :
    (match_url (b'/' ∷ ab ++ b'*' ∷ []) ab_query ≡ starts_with (skip_slash ab_query) ab)
    × ((match_url (b'/' ∷ ab ++ b'/' ∷ []) ab_query ≡ (
          str_eq (take (trimmed_length (skip_slash ab_query)) (skip_slash ab_query)) ab
          || starts_with (skip_slash ab_query) (ab ++ b'/' ∷ [])))
        × (match_url (b'/' ∷ ab ++ b'c' ∷ []) ab_query
            ≡ str_eq (ab ++ b'c' ∷ []) (skip_slash ab_query)))
match_url-kinds_example = match_url-kinds ab ab_query b'c' some_left refl refl
