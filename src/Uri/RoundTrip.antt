-- ===== src/Uri/RoundTrip.antt =====
-- http/uri.cpp: a printed URI is parsed back.
use cassobee.Base.{
  All-append, All-map, Bool-cases, not, ◌&&◌, ◌≡◌, ℕ, refl, sym, ◌∙◌, append_assoc, append-nil,
  Bool, true, false, Option, none, some, [], ◌∷◌, ◌++◌, All, ◌==◌, ◌⊎◌, inl, inr, arith,
  if◌then◌else◌,
}
use cassobee.Base.Int.{ℤ, pos}
use cassobee.Base.Text.{
  Bytes, Lacks, Lacks-append, is_digit, decimal, decimal-Digits, is_empty, split, split-found,
  split-Lacks,
}
use cassobee.Uri.{
  Uri, empty_uri, parse, to_string, parse_rest, parse_authority, parse_userinfo, parse_hostport,
  bracketed, atoi, schema_text, user_text, printed_userinfo, host_text, with_brackets, port_text,
  path_text, query_text, fragment_text, is_default_port, starts_with_slash, ends_authority,
}
use cassobee.Uri.Cut.{Inside, Ended, cut_authority-Ended, atoi-decimal, parse_tail-path_text}

-- A host with a `:` in it is printed in brackets and may hold no `]`; another starts with no `[`.
abbrev pub IsHost : Bytes → Type 0
IsHost host =
    (is_empty host ≡ false)
    × Inside host
    × Lacks b'@' host
    × (((before : Bytes) × (after : Bytes) × (split b':' host ≡ some (before, after))
          × Lacks b']' host)
        ⊎ (Lacks b':' host × Lacks b'[' host))

-- A port that is printed, or none.
abbrev pub IsPort : Uri → Type 0
IsPort u = (u.port ≡ pos 0) ⊎ ((n : ℕ) × (u.port ≡ pos n) × (is_default_port u ≡ false))

-- The fields whose text says where they end.
pub record WellFormed (u : Uri) : Type 0 where
  pub schema_given : is_empty u.schema ≡ false
  pub schema_lacks : Lacks b':' u.schema
  pub user_inside : Inside u.user × Lacks b'@' u.user × Lacks b':' u.user
  pub password_inside : Inside u.password × Lacks b'@' u.password
  pub password_owned : is_empty u.user ≡ true → u.password ≡ []
  pub host_inside : IsHost u.host
  pub port_shown : IsPort u
  pub path_rooted : (is_empty u.path ≡ true) ⊎ (starts_with_slash u.path ≡ true)
  pub path_lacks : Lacks b'?' u.path × Lacks b'#' u.path
  pub query_lacks : Lacks b'#' u.query

-- What a printed port is.
abbrev IsPortText : ℤ → Bytes → Type 0
IsPortText p text =
    ((text ≡ []) × (p ≡ pos 0))
    ⊎ ((digits : Bytes) × (text ≡ b':' ∷ digits)
        × (atoi digits ≡ p)
        × All (λ c. is_digit c ≡ true) digits)

port_text-IsPortText : (u : Uri) → IsPort u → IsPortText u.port (port_text u)
unfolding port_text is_default_port
port_text-IsPortText u (inl none_given) = inl (rw none_given, none_given)
port_text-IsPortText u (inr (n, e, shown)) =
    inr (decimal n, rw (shown, e), atoi-decimal n ∙ sym e, (decimal-Digits n).0)

plain_host :
    (host : Bytes) (v : Uri) (p : ℤ) (port : Bytes)
    → is_empty host ≡ false
    → Lacks b':' host
    → Lacks b'[' host
    → IsPortText p port
    → v.port ≡ pos 0
    → parse_hostport (host ++ port) v ≡ record v { host = host; port = p }
unfolding parse_hostport
plain_host [] v p port n h k t z = absurd (ground arith)
plain_host (c ∷ cs) v p port n h k (inl (e, q)) z =
    rw (e, append-nil, k.0, split-Lacks b':' (c ∷ cs) h, q, ← z)
plain_host (c ∷ cs) v p port n h k (inr (digits, e, q, ds)) z =
    rw (e, k.0, split-found b':' (c ∷ cs) digits h, q)

bracketed_host :
    (host : Bytes) (v : Uri) (p : ℤ) (port : Bytes)
    → Lacks b']' host
    → IsPortText p port
    → v.port ≡ pos 0
    → parse_hostport (b'[' ∷ ((host ++ b']' ∷ []) ++ port)) v ≡ record v { host = host; port = p }
unfolding parse_hostport split
bracketed_host host v p port h t z =
    rw (append_assoc host (b']' ∷ []) port, split-found b']' host port h) (behind t)
  where
    behind :
        IsPortText p port → bracketed v (some (host, port)) ≡ record v { host = host; port = p }
    behind (inl (e, q)) = rw (e, q, ← z)
    behind (inr (digits, e, q, ds)) = rw (e, q)

-- The host and the port come back.
parse_hostport-host_text :
    (u v : Uri) (port : Bytes)
    → IsHost u.host
    → IsPortText u.port port
    → v.port ≡ pos 0
    → parse_hostport (host_text u ++ port) v ≡ record v { host = u.host; port = u.port }
unfolding host_text
parse_hostport-host_text u v port (n, inside, at, inl (before, after, found, closed)) t z =
    rw (n, found) (bracketed_host u.host v u.port port closed t z)
parse_hostport-host_text u v port (n, inside, at, inr (no_colon, open_lacks)) t z =
    rw (n, split-Lacks b':' u.host no_colon)
      (plain_host u.host v u.port port n no_colon open_lacks t z)

-- The fields before the authority is read.
abbrev start : Bytes → Uri
start schema = record empty_uri { schema = schema }

-- The user and the password come back.
read_userinfo :
    (schema user password hostport : Bytes)
    → Lacks b'@' user
    → Lacks b':' user
    → Lacks b'@' password
    → (is_empty user ≡ true → password ≡ [])
    → Lacks b'@' hostport
    → parse_authority (printed_userinfo user password ++ hostport) (start schema)
      ≡ parse_hostport hostport (record (start schema) { user = user; password = password })
unfolding parse_authority parse_userinfo
read_userinfo schema [] password hostport h colon k owned at =
    rw (split-Lacks b'@' hostport at, owned refl)
read_userinfo schema (c ∷ cs) [] hostport h colon k owned at = rw (
  append_assoc (c ∷ cs) (b'@' ∷ []) hostport,
  split-found b'@' (c ∷ cs) hostport h,
  split-Lacks b':' (c ∷ cs) colon,
)
read_userinfo schema (c ∷ cs) (d ∷ ds) hostport h colon k owned at = rw (
  append_assoc (c ∷ cs) (b':' ∷ d ∷ (ds ++ b'@' ∷ [])) hostport,
  append_assoc ds (b'@' ∷ []) hostport,
  sym (append_assoc (c ∷ cs) (b':' ∷ d ∷ ds) (b'@' ∷ hostport)),
  split-found b'@' ((c ∷ cs) ++ (b':' ∷ d ∷ ds)) hostport
      (Lacks-append b'@' (c ∷ cs) (b':' ∷ d ∷ ds) h (refl, k)),
  split-found b':' (c ∷ cs) (d ∷ ds) colon,
)

-- A printed authority holds no byte that ends it, and no `@` behind the user.
module _ (P : ℕ → Type 0) (digit : (c : ℕ) → is_digit c ≡ true → P c) (colon : P b':') where
  port_text-All : (u : Uri) (port : Bytes) → IsPortText u.port port → All P port
  port_text-All u port (inl (e, q)) = rw e tt
  port_text-All u port (inr (digits, e, q, ds)) =
      rw e (colon, All-map (λ c. is_digit c ≡ true) P digit digits ds)

  host_text-All :
      P b'[' → P b']' → (u : Uri) → is_empty u.host ≡ false → All P u.host → All P (host_text u)
  unfolding host_text
  host_text-All l r u n h = rw n (with_brackets-All (split b':' u.host))
    where
      with_brackets-All : (found : Option (Bytes × Bytes)) → All P (with_brackets u.host found)
      with_brackets-All none = h
      with_brackets-All (some _) = (l, All-append P u.host (b']' ∷ []) h (r, tt))

  printed_userinfo-All :
      P b'@'
      → (user password : Bytes) → All P user
      → All P password
      → All P (printed_userinfo user password)
  printed_userinfo-All at [] password h k = tt
  printed_userinfo-All at (c ∷ cs) [] h k = All-append P (c ∷ cs) (b'@' ∷ []) h (at, tt)
  printed_userinfo-All at (c ∷ cs) (d ∷ ds) h k =
      All-append P (c ∷ cs) (b':' ∷ d ∷ (ds ++ b'@' ∷ [])) h
        (colon, All-append P (d ∷ ds) (b'@' ∷ []) k (at, tt))

tail-Ended :
    (path query fragment : Bytes)
    → (is_empty path ≡ true) ⊎ (starts_with_slash path ≡ true)
    → Ended (
        path
        ++ ((if is_empty query then [] else b'?' ∷ query)
            ++ (if is_empty fragment then [] else b'#' ∷ fragment)))
tail-Ended [] [] [] h = tt
tail-Ended [] [] (c ∷ cs) h = refl
tail-Ended [] (c ∷ cs) fragment h = refl
tail-Ended (c ∷ cs) query fragment (inl h) = absurd (ground arith)
tail-Ended (c ∷ cs) query fragment (inr h) = ground arith

nil_of_empty : (xs : Bytes) → is_empty xs ≡ true → [] ≡ xs
nil_of_empty [] h = refl
nil_of_empty (x ∷ xs) h = absurd (ground arith)

path_text-path :
    (u : Uri) (result : Bytes)
    → (is_empty u.path ≡ true) ⊎ (starts_with_slash u.path ≡ true)
    → path_text u result ≡ u.path
unfolding path_text
path_text-path u result (inl h) = rw h (nil_of_empty u.path h)
path_text-path u result (inr h) = elim (Bool-cases (is_empty u.path)) [
  | inl none_left ↦ rw none_left (nil_of_empty u.path none_left)
  | inr some_left ↦ rw (some_left, h) (both (is_empty result) u.path)
]
  where
    both : (b : Bool) (path : Bytes) → (if not b && false then b'/' ∷ path else path) ≡ path
    both true path = refl
    both false path = refl

module _ (u : Uri) (w : WellFormed u) where
  hostport : Bytes
  hostport = host_text u ++ port_text u

  authority : Bytes
  authority = user_text u ++ hostport

  rest : Bytes
  rest = u.path ++ (query_text u ++ fragment_text u)

  ported : IsPortText u.port (port_text u)
  ported = port_text-IsPortText u w.port_shown

  authority-Inside : Inside authority
  unfolding authority hostport user_text
  authority-Inside =
      All-append P (user_text u) (host_text u ++ port_text u)
        (printed_userinfo-All P digit refl refl u.user u.password w.user_inside.0
          w.password_inside.0)
        (All-append P (host_text u) (port_text u)
          (host_text-All P digit refl refl refl u w.host_inside.0 w.host_inside.1)
          (port_text-All P digit refl u (port_text u) ported))
    where
      P : ℕ → Type 0
      P c = ends_authority c ≡ false

      digit : (c : ℕ) → is_digit c ≡ true → P c
      digit c h = ground arith

  hostport-Lacks : Lacks b'@' hostport
  unfolding hostport
  hostport-Lacks =
      All-append P (host_text u) (port_text u)
        (host_text-All P digit refl refl refl u w.host_inside.0 w.host_inside.2)
        (port_text-All P digit refl u (port_text u) ported)
    where
      P : ℕ → Type 0
      P c = (c == b'@') ≡ false

      digit : (c : ℕ) → is_digit c ≡ true → P c
      digit c h = ground arith

  parse_authority-authority : parse_authority authority (start u.schema) ≡ record (start u.schema) {
    user = u.user;
    password = u.password;
    host = u.host;
    port = u.port;
  }
  unfolding authority hostport user_text
  parse_authority-authority =
      read_userinfo u.schema u.user u.password hostport w.user_inside.1 w.user_inside.2
        w.password_inside.1 w.password_owned hostport-Lacks
      ∙ parse_hostport-host_text u
          (record (start u.schema) { user = u.user; password = u.password }) (port_text u)
          w.host_inside ported refl

  to_string-pieces : to_string u ≡ u.schema ++ (b':' ∷ b'/' ∷ b'/' ∷ (authority ++ rest))
  unfolding to_string schema_text authority hostport rest path_text
  to_string-pieces = rw (
    path_text-path u (schema_text u ++ (user_text u ++ (host_text u ++ port_text u))) w.path_rooted,
    w.schema_given,
    w.host_inside.0,
    append_assoc u.schema (b':' ∷ b'/' ∷ b'/' ∷ []) authority,
    append_assoc u.schema (b':' ∷ b'/' ∷ b'/' ∷ authority) rest,
  )

  rest-Ended : Ended rest
  unfolding rest query_text fragment_text
  rest-Ended = tail-Ended u.path u.query u.fragment w.path_rooted

  -- A URI that is well formed, has a schema and a host, and a path that is empty or starts with a
  -- slash, is the one that parsing its text gives.
  pub parse-to_string : parse (to_string u) ≡ u
  unfolding parse parse_rest rest
  parse-to_string =
      rw
        (
          to_string-pieces,
          split-found b':' u.schema (b'/' ∷ b'/' ∷ (authority ++ rest)) w.schema_lacks,
          cut_authority-Ended authority rest authority-Inside rest-Ended,
          parse_authority-authority,
        )
        (parse_tail-path_text u
          (record (start u.schema) {
            user = u.user;
            password = u.password;
            host = u.host;
            port = u.port;
          })
          w.path_lacks.0 w.path_lacks.1 w.query_lacks)
