-- ===== src/Gateway/Path.antt =====
-- Request paths: crates/tgin-botapi/src/gateway/path.rs, and `gateway_token` and `valid_name` of
-- crates/tgin-core/src/config/mod.rs. A text is its bytes.
use tgin.Prelude.{
  ℕ, Bool, true, false, not, ◌&&◌, ◌||◌, Option, none, some, List, [], ◌∷◌, length, take, drop,
  is_empty, leb, ◌==◌, if◌then◌else◌,
}
use tgin.Prelude.Eq.{nat_eq, member}

abbrev pub Text : Type 0
Text = List ℕ

infixl 5 ◌>>=◌
abbrev pub ◌>>=◌ {ℓ κ} : {A : Type ℓ} {B : Type κ} → Option A → (A → Option B) → Option B
none >>= f = none
some a >>= f = f a

-- `str::strip_prefix`
unfoldable pub strip_prefix : Text → Text → Option Text
strip_prefix [] text = some text
strip_prefix (p ∷ prefix) [] = none
strip_prefix (p ∷ prefix) (c ∷ text) =
    let rest = strip_prefix prefix text in if p == c then rest else none

-- `str::split_once`, at one byte.
unfoldable pub split_once : ℕ → Text → Option (Text × Text)
split_once at [] = none
split_once at (c ∷ text) =
    let rest = split_once at text in
    if c == at
    then some ([], text)
    else (elim rest [ none ↦ none | some (before, after) ↦ some (c ∷ before, after) ])

abbrev pub between : ℕ → ℕ → ℕ → Bool
between low high c = leb low c && leb c high

abbrev pub is_digit : ℕ → Bool
is_digit c = between b'0' b'9' c

abbrev pub is_lower : ℕ → Bool
is_lower c = between b'a' b'z' c

abbrev pub is_alphabetic : ℕ → Bool
is_alphabetic c = is_lower c || between b'A' b'Z' c

abbrev pub is_alphanumeric : ℕ → Bool
is_alphanumeric c = is_alphabetic c || is_digit c

unfoldable pub all_of : (ℕ → Bool) → Text → Bool
all_of p [] = true
all_of p (c ∷ text) = p c && all_of p text

abbrev pub first_is : (ℕ → Bool) → Text → Bool
first_is p [] = false
first_is p (c ∷ text) = p c

unfoldable pub valid_name : Text → Bool
unfolding all_of
valid_name name =
    leb (length name) 63
    && first_is (λ c. is_lower c || is_digit c) name
    && all_of (λ c. is_lower c || is_digit c || c == b'-') name

unfoldable pub gateway_token : Text → Bool
unfolding split_once all_of
gateway_token token = elim (split_once b':' token) [
  | none ↦ false
  | some (id, secret) ↦
      not (is_empty id)
      && all_of is_digit id
      && leb 1 (length secret)
      && leb (length secret) 128
      && all_of (λ c. is_alphanumeric c || c == b'_' || c == b'-') secret
]

unfoldable pub valid_method : Text → Bool
unfolding all_of
valid_method method =
    leb (length method) 64
    && first_is is_alphabetic method
    && all_of (λ c. is_alphanumeric c || c == b'_') method

-- `.`, or `%2e` with the last letter in either case.
abbrev pub is_dot : Text → Bool
is_dot (c ∷ []) = c == b'.'
is_dot (c ∷ d ∷ e ∷ []) = c == b'%' && d == b'2' && (e == b'e' || e == b'E')
is_dot text = false

unfoldable pub is_dot_segment : Text → Bool
is_dot_segment segment =
    is_dot segment
    || (is_dot (take 1 segment) && is_dot (drop 1 segment))
    || (is_dot (take 3 segment) && is_dot (drop 3 segment))

-- `split('/')`: the first segment, and the others.
unfoldable pub segments : Text → Text × List Text
segments [] = ([], [])
segments (c ∷ text) =
    let (first, others) = segments text in
    if c == b'/' then ([], first ∷ others) else (c ∷ first, others)

unfoldable pub no_dots : List Text → Bool
unfolding is_dot_segment
no_dots [] = true
no_dots (segment ∷ others) = not (is_dot_segment segment) && no_dots others

unfoldable pub valid_file_path : Text → Bool
unfolding segments no_dots
valid_file_path file_path =
    not (is_empty file_path)
    && not (member b'\\' file_path)
    && (let (first, others) = segments file_path in no_dots (first ∷ others))

pub data GatewayPath : Type 0 where
  method_of : Option Text → Text → Text → GatewayPath
  file_of : Option Text → Text → Text → GatewayPath

-- `then_some`
abbrev pub then_some {ℓ} : {A : Type ℓ} → Bool → A → Option A
then_some true a = some a
then_some false a = none

-- `decode` is `percent_decode_str(…).decode_utf8().ok()` of the crate percent-encoding.
module _ (decode : Text → Option Text) where
  unfoldable pub token_segment : Text → Option Text
  unfolding strip_prefix gateway_token
  token_segment segment = do
    encoded ← strip_prefix (b'b' ∷ b'o' ∷ b't' ∷ []) segment
    token ← decode encoded
    then_some (gateway_token token) token

  -- The consumer, and what is behind it.
  unfoldable pub consumer_part : Text → Option (Option Text × Text)
  unfolding strip_prefix split_once valid_name
  consumer_part rest = elim (strip_prefix (b'c' ∷ b'/' ∷ []) rest) [
    | none ↦ some (none, rest)
    | some under ↦ split_once b'/' under >>= λ x. then_some (valid_name x.0) (some x.0, x.1)
  ]

  unfoldable pub parse_file : Option Text → Text → Option GatewayPath
  unfolding split_once token_segment valid_file_path
  parse_file consumer rest = split_once b'/' rest >>= λ x.
      token_segment x.0 >>= λ token. then_some (valid_file_path x.1) (file_of consumer token x.1)

  unfoldable pub parse_method : Option Text → Text → Option GatewayPath
  unfolding split_once token_segment valid_method
  parse_method consumer rest = split_once b'/' rest >>= λ x.
      token_segment x.0 >>= λ token. then_some (valid_method x.1) (method_of consumer token x.1)

  unfoldable pub parse : Text → Option GatewayPath
  unfolding strip_prefix consumer_part parse_file parse_method
  parse path = strip_prefix (b'/' ∷ []) path >>= λ rest. consumer_part rest >>= λ x.
      elim (strip_prefix (b'f' ∷ b'i' ∷ b'l' ∷ b'e' ∷ b'/' ∷ []) x.1) [
        | some file ↦ parse_file x.0 file
        | none ↦ parse_method x.0 x.1
      ]
