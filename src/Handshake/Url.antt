-- ===== src/Handshake/Url.antt =====
-- client.go: `parseUrl`.
use webson.Common.{
  ℕ, zero, suc, ◌+◌, Bool, false, ◌||◌, if◌then◌else◌, ltb, ◌==◌, bytes_eq, codes, List, [], ◌∷◌,
  ◌++◌, Option, none, some, length, take, drop,
}
use webson.Handshake.Server.{starts_with}

pub record SimpleUrl : Type 0 where
  pub host_port : List ℕ
  pub path : List ℕ
  pub user_password : List ℕ
  pub use_tls : Bool

-- `strings.Index`.
unfoldable pub index : List ℕ → List ℕ → Option ℕ
unfolding starts_with
index s [] = if starts_with s [] then some 0 else none
index s (b ∷ t) =
    let rest = index s t in
    if starts_with s (b ∷ t) then some 0 else elim rest [ none ↦ none | some i ↦ some (suc i) ]

-- The two parts at the first `s`, without it, if it is found and not at the start.
unfoldable pub cut_at : List ℕ → List ℕ → Option (List ℕ × List ℕ)
unfolding index
cut_at s t = elim (index s t) [
  | none ↦ none
  | some zero ↦ none
  | some (suc i) ↦ some (take (suc i) t, drop (suc i + length s) t)
]

abbrev pub drop_fragment : List ℕ → List ℕ
drop_fragment url = elim (cut_at (codes "#") url) [ none ↦ url | some (before, after) ↦ before ]

abbrev pub split_scheme : List ℕ → Bool × List ℕ
split_scheme url = elim (cut_at (codes "://") url) [
  | none ↦ (false, url)
  | some (scheme, after) ↦ (bytes_eq scheme (codes "wss"), after)
]

abbrev pub split_user : List ℕ → List ℕ × List ℕ
split_user url = elim (cut_at (codes "@") url) [
  | none ↦ ([], url)
  | some (user, after) ↦ (user, after)
]

-- The path keeps its slash.
abbrev pub split_path : List ℕ → List ℕ × List ℕ
split_path url = elim (cut_at (codes "/") url) [
  | none ↦ (url, codes "/")
  | some (host, after) ↦ (host, 47 ∷ after)
]

-- A control character in a path; the loop of the source is over runes, and the bytes of a rune above
-- 127 are above 127.
unfoldable pub has_control : List ℕ → Bool
has_control [] = false
has_control (b ∷ bs) = ltb b 32 || b == 127 || has_control bs

unfoldable pub with_port : Bool → List ℕ → List ℕ
unfolding index
with_port use_tls host = elim (index (codes ":") host) [
  | some i ↦ host
  | none ↦ host ++ (if use_tls then codes ":443" else codes ":80")
]

unfoldable pub parse_url : List ℕ → Option SimpleUrl
unfolding cut_at has_control with_port
parse_url url =
    let (use_tls, after_scheme) = split_scheme (drop_fragment url) in
    let (user_password, after_user) = split_user after_scheme in
    let (host, path) = split_path after_user in
    if has_control path
    then none
    else some (record {
      host_port = with_port use_tls host;
      path = path;
      user_password = user_password;
      use_tls = use_tls;
    })
