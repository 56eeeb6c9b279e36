-- ===== src/Uri.antt =====
-- source/bee/http/uri.cpp: the parser and the printer of URIs. A text is the list of its bytes.
pub mod Cut
pub mod RoundTrip
mod Tests
use cassobee.Base.{
  ℕ, zero, suc, ◌+◌, ◌-◌, ◌*◌, Bool, true, false, not, ◌&&◌, ◌||◌, ltb, ◌==◌, if◌then◌else◌, Option,
  none, some, List, [], ◌∷◌, ◌++◌,
}
use cassobee.Base.Int.{ℤ, pos, negsuc}
use cassobee.Base.Text.{Bytes, is_empty, equal, split, decimal, digits_value}

-- `_port` is an `int32_t`; the program leaves it open what a larger number of digits gives.
pub record Uri : Type 0 where
  pub schema : Bytes
  pub user : Bytes
  pub password : Bytes
  pub host : Bytes
  pub port : ℤ
  pub path : Bytes
  pub query : Bytes
  pub fragment : Bytes

abbrev pub empty_uri : Uri
empty_uri = record {
  schema = [];
  user = [];
  password = [];
  host = [];
  port = pos 0;
  path = [];
  query = [];
  fragment = [];
}

-- `std::atoi`: white space, a sign, digits.
abbrev pub is_space : ℕ → Bool
is_space c = c == b' ' || (c == 9 || (c == 10 || (c == 11 || (c == 12 || c == 13))))

abbrev pub negated : ℕ → ℤ
negated zero = pos 0
negated (suc n) = negsuc n

abbrev pub signed : Bytes → ℤ
signed [] = pos 0
signed (c ∷ cs) =
    if c == b'-'
    then negated (digits_value 0 cs)
    else pos (digits_value 0 (if c == b'+' then cs else c ∷ cs))

pub skip_space : Bytes → Bytes
skip_space [] = []
skip_space (c ∷ cs) = let rest = skip_space cs in if is_space c then rest else c ∷ cs

unfoldable pub atoi : Bytes → ℤ
unfolding skip_space
atoi text = signed (skip_space text)

-- The text from `[` on, which is left out: the host up to `]`, and a port behind the first `:` there.
abbrev pub bracketed : Uri → Option (Bytes × Bytes) → Uri
bracketed u none = u
bracketed u (some (host, behind)) = elim (split b':' behind) [
  | none ↦ record u { host = host }
  | some (_, port) ↦ record u { host = host; port = atoi port }
]

abbrev pub plain : Uri → Bytes → Option (Bytes × Bytes) → Uri
plain u hostport none = record u { host = hostport }
plain u hostport (some (host, port)) = record u { host = host; port = atoi port }

unfoldable pub parse_hostport : Bytes → Uri → Uri
unfolding atoi
parse_hostport [] u = u
parse_hostport (c ∷ cs) u =
    if c == b'[' then bracketed u (split b']' cs) else plain u (c ∷ cs) (split b':' (c ∷ cs))

abbrev pub with_userinfo : Uri → Bytes → Option (Bytes × Bytes) → Uri
with_userinfo u userinfo none = record u { user = userinfo }
with_userinfo u userinfo (some (user, password)) = record u { user = user; password = password }

unfoldable pub parse_userinfo : Bytes → Uri → Uri
parse_userinfo userinfo u = with_userinfo u userinfo (split b':' userinfo)

abbrev pub with_authority : Uri → Bytes → Option (Bytes × Bytes) → Uri
with_authority u authority none = parse_hostport authority u
with_authority u authority (some (userinfo, hostport)) =
    parse_hostport hostport (parse_userinfo userinfo u)

unfoldable pub parse_authority : Bytes → Uri → Uri
parse_authority authority u = with_authority u authority (split b'@' authority)

-- `find_first_of("/?#")`: the text before the first of these bytes, and the text from it on.
abbrev pub ends_authority : ℕ → Bool
ends_authority c = c == b'/' || (c == b'?' || c == b'#')

unfoldable pub cut_authority : Bytes → Bytes × Bytes
cut_authority [] = ([], [])
cut_authority (c ∷ cs) =
    let (before, from) = cut_authority cs in
    if ends_authority c then ([], c ∷ cs) else (c ∷ before, from)

-- The text before a byte, and what stands behind it; nothing, if the byte is not there.
abbrev pub cut_at : Bytes → Option (Bytes × Bytes) → Bytes × Bytes
cut_at text none = (text, [])
cut_at text (some parts) = parts

-- A `#` cuts the fragment off, then a `?` the query. The fields start out empty.
unfoldable pub parse_tail : Bytes → Uri → Uri
parse_tail text u =
    let (before, fragment) = cut_at text (split b'#' text) in
    let (path, query) = cut_at before (split b'?' before) in
    record u { path = path; query = query; fragment = fragment }

abbrev pub hierarchical : Uri → Bytes × Bytes → Uri
hierarchical u (authority, remaining) = parse_tail remaining (parse_authority authority u)

unfoldable pub parse_rest : Bytes → Uri → Uri
parse_rest [] u = record u { path = [] }
parse_rest (a ∷ []) u = record u { path = a ∷ [] }
parse_rest (a ∷ b ∷ rest) u =
    if a == b'/' && b == b'/'
    then hierarchical u (cut_authority rest)
    else record u { path = a ∷ b ∷ rest }

abbrev pub with_schema : Bytes → Option (Bytes × Bytes) → Uri
with_schema text none = parse_tail text empty_uri
with_schema text (some (schema, rest)) = parse_rest rest (record empty_uri { schema = schema })

-- `parse` clears all fields first.
pub parse : Bytes → Uri
parse text = with_schema text (split b':' text)

pub is_valid : Uri → Bool
is_valid u = not (is_empty u.schema) || (not (is_empty u.host) || not (is_empty u.path))

abbrev http : Bytes
http = b'h' ∷ b't' ∷ b't' ∷ b'p' ∷ []

abbrev https : Bytes
https = b'h' ∷ b't' ∷ b't' ∷ b'p' ∷ b's' ∷ []

abbrev ws : Bytes
ws = b'w' ∷ b's' ∷ []

abbrev wss : Bytes
wss = b'w' ∷ b's' ∷ b's' ∷ []

abbrev is_pos : ℤ → ℕ → Bool
is_pos (pos n) m = n == m
is_pos (negsuc n) m = false

pub is_default_port : Uri → Bool
is_default_port u =
    if is_pos u.port 0
    then true
    else if equal u.schema http || equal u.schema ws
    then is_pos u.port 8080
    else (if equal u.schema https || equal u.schema wss then is_pos u.port 443 else false)

abbrev pub number : ℤ → Bytes
number (pos n) = decimal n
number (negsuc n) = b'-' ∷ decimal (suc n)

abbrev above_zero : ℤ → Bool
above_zero (pos n) = ltb 0 n
above_zero (negsuc n) = false

-- The pieces of `to_string`, in its order.
pub schema_text : Uri → Bytes
schema_text u =
    if is_empty u.schema
    then []
    else if not (is_empty u.host) || (above_zero u.port || not (is_empty u.user))
    then u.schema ++ (b':' ∷ b'/' ∷ b'/' ∷ [])
    else u.schema ++ (b':' ∷ [])

abbrev pub printed_userinfo : Bytes → Bytes → Bytes
printed_userinfo user password =
    if is_empty user
    then []
    else if is_empty password
    then user ++ (b'@' ∷ [])
    else user ++ (b':' ∷ (password ++ (b'@' ∷ [])))

pub user_text : Uri → Bytes
user_text u = printed_userinfo u.user u.password

abbrev pub with_brackets : Bytes → Option (Bytes × Bytes) → Bytes
with_brackets host none = host
with_brackets host (some _) = b'[' ∷ (host ++ (b']' ∷ []))

pub host_text : Uri → Bytes
host_text u = if is_empty u.host then [] else with_brackets u.host (split b':' u.host)

pub port_text : Uri → Bytes
port_text u = if is_default_port u then [] else b':' ∷ number u.port

abbrev pub starts_with_slash : Bytes → Bool
starts_with_slash [] = false
starts_with_slash (c ∷ cs) = c == b'/'

-- `result` is what is printed so far.
pub path_text : Uri → Bytes → Bytes
path_text u result =
    if is_empty u.path
    then []
    else if not (is_empty result) && (not (starts_with_slash u.path) && not (is_empty u.host))
    then b'/' ∷ u.path
    else u.path

pub query_text : Uri → Bytes
query_text u = if is_empty u.query then [] else b'?' ∷ u.query

pub fragment_text : Uri → Bytes
fragment_text u = if is_empty u.fragment then [] else b'#' ∷ u.fragment

pub to_string : Uri → Bytes
to_string u =
    let authority = schema_text u ++ (user_text u ++ (host_text u ++ port_text u)) in
    authority ++ (path_text u authority ++ (query_text u ++ fragment_text u))
