-- ===== src/Uri/Tests.antt =====
-- http/uri.cpp on concrete URIs.
use cassobee.Base.{◌≡◌, refl, [], ◌∷◌, inl, inr, arith}
use cassobee.Base.Int.{pos}
use cassobee.Base.Text.{split, equal, digits_value}
use cassobee.Uri.{
  Uri, parse, to_string, parse_authority, parse_hostport, parse_rest, cut_authority, parse_tail,
  atoi, is_default_port,
}
use cassobee.Uri.RoundTrip.{WellFormed, parse-to_string}

abbrev sample : Uri
sample = record {
  schema = b'a' ∷ [];
  user = b'u' ∷ [];
  password = b'p' ∷ [];
  host = b':' ∷ b'1' ∷ [];
  port = pos 80;
  path = b'/' ∷ b'x' ∷ [];
  query = b'q' ∷ b'?' ∷ [];
  fragment = b'f' ∷ [];
}

sample-WellFormed : WellFormed sample
unfolding is_default_port split equal
sample-WellFormed = record {
  schema_given = refl;
  schema_lacks = (refl, tt);
  user_inside = ((refl, tt), (refl, tt), (refl, tt));
  password_inside = ((refl, tt), (refl, tt));
  password_owned = λ h. absurd (ground arith);
  host_inside =
      (refl, (refl, (refl, tt)), (refl, (refl, tt)), inl ([], b'1' ∷ [], refl, (refl, (refl, tt))));
  port_shown = inr (80, refl, refl);
  path_rooted = inr refl;
  path_lacks = ((refl, (refl, tt)), (refl, (refl, tt)));
  query_lacks = (refl, (refl, tt));
}

parse-to_string_example : parse (to_string sample) ≡ sample
parse-to_string_example = parse-to_string sample sample-WellFormed

-- An authority in brackets with a port.
parse_brackets :
    (parse (b'a' ∷ b':' ∷ b'/' ∷ b'/' ∷ b'[' ∷ b':' ∷ b'1' ∷ b']' ∷ b':' ∷ b'9' ∷ [])).port ≡ pos 9
unfolding parse split parse_authority parse_hostport parse_rest cut_authority parse_tail atoi
    digits_value
parse_brackets = refl
