-- ===== src/Gateway/Tests.antt =====
-- Paths, with a token that stands for itself.
use tgin.Prelude.{◌≡◌, refl, none, some, [], ◌∷◌}
use tgin.Prelude.Eq.{member}
use tgin.Gateway.Path.{
  Text, GatewayPath, method_of, parse, parse_file, parse_method, consumer_part, token_segment,
  strip_prefix, split_once, gateway_token, valid_name, valid_method, valid_file_path, all_of,
  segments, no_dots, is_dot_segment,
}
use tgin.Gateway.Parsed.{Accepted, parse-Accepted}

-- /c/a/bot1:x/m
abbrev method_path : Text
method_path =
    b'/' ∷ b'c' ∷ b'/' ∷ b'a' ∷ b'/' ∷ b'b' ∷ b'o' ∷ b't' ∷ b'1' ∷ b':' ∷ b'x' ∷ b'/' ∷ b'm' ∷ []

abbrev method : GatewayPath
method = method_of (some (b'a' ∷ [])) (b'1' ∷ b':' ∷ b'x' ∷ []) (b'm' ∷ [])

method_is : parse some method_path ≡ some method
unfolding parse parse_file parse_method consumer_part token_segment strip_prefix split_once
    gateway_token valid_name valid_method valid_file_path all_of segments no_dots is_dot_segment
    member
method_is = refl

-- /file/bot1:x/%2E./p
up_is :
    parse some (
      b'/' ∷ b'f' ∷ b'i' ∷ b'l' ∷ b'e' ∷ b'/' ∷ b'b' ∷ b'o' ∷ b't' ∷ b'1' ∷ b':' ∷ b'x' ∷ b'/'
      ∷ b'%' ∷ b'2' ∷ b'E' ∷ b'.' ∷ b'/' ∷ b'p' ∷ [])
    ≡ none
unfolding parse parse_file parse_method consumer_part token_segment strip_prefix split_once
    gateway_token valid_name valid_method valid_file_path all_of segments no_dots is_dot_segment
    member
up_is = refl

parse-Accepted_example : Accepted some method_path method
parse-Accepted_example = parse-Accepted some method_path method method_is
