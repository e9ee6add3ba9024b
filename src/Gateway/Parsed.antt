-- ===== src/Gateway/Parsed.antt =====
-- What `parse` of crates/tgin-botapi/src/gateway/path.rs accepts.
use tgin.Prelude.{
  ℕ, ◌≡◌, refl, sym, ap, subst, ◌∙◌, Bool, true, false, Option, none, some, [], ◌∷◌, ◌++◌, ◌==◌,
  ==_iff, arith, Bool-cases, Option-cases, some-cancel, inl, inr,
}
use tgin.Prelude.Eq.{nat_eq, member}
use tgin.Rules.Shape.{append_assoc}
use tgin.Gateway.Path.{
  Text, ◌>>=◌, strip_prefix, split_once, gateway_token, valid_name, valid_method, valid_file_path,
  GatewayPath, method_of, file_of, then_some, token_segment, consumer_part, parse_file,
  parse_method, parse,
}

some-bind {ℓ κ} :
    {A : Type ℓ} {B : Type κ} (o : Option A) (f : A → Option B) (b : B)
    → (o >>= f) ≡ some b
    → (a : A) × (o ≡ some a) × (f a ≡ some b)
some-bind none f b h = absurd (cc h)
some-bind (some a) f b h = (a, refl, h)

then_some-true {ℓ} :
    {A : Type ℓ} (t : Bool) (a b : A) → then_some t a ≡ some b → (t ≡ true) × (a ≡ b)
then_some-true true a b h = (refl, some-cancel refl h)
then_some-true false a b h = absurd (cc h)

strip_prefix-some :
    (prefix text rest : Text) → strip_prefix prefix text ≡ some rest → text ≡ prefix ++ rest
unfolding strip_prefix
strip_prefix-some [] text rest h = some-cancel refl h
strip_prefix-some (p ∷ prefix) [] rest h = absurd (cc h)
strip_prefix-some (p ∷ prefix) (c ∷ text) rest h = elim (Bool-cases (p == c)) [
  | inl same ↦
      let e = (==_iff p c).0 same in
      ap (λ d. d ∷ text) (sym e)
      ∙ ap (λ t. p ∷ t) (strip_prefix-some prefix text rest (ground (arith, h, same)))
  | inr other ↦ absurd (ground (arith, h, other))
]

split_once-some :
    (at : ℕ) (text before after : Text)
    → split_once at text ≡ some (before, after)
    → (text ≡ before ++ at ∷ after) × (member at before ≡ false)
unfolding split_once member
split_once-some at [] before after h = absurd (cc h)
split_once-some at (c ∷ text) before after h = elim (Bool-cases (c == at)) [
  | inl found ↦
      let answer : split_once at (c ∷ text) ≡ some ([], text) = rw (found, split_once) refl in
      let e = some-cancel answer h in
      let same = (==_iff c at).0 found in
      subst (λ (x : Text × Text). (c ∷ text ≡ x.0 ++ at ∷ x.1) × (member at x.0 ≡ false)) e
        (ap (λ d. d ∷ text) same, refl)
  | inr other ↦ elim (Option-cases (split_once at text)) [
    | inl gone ↦ absurd (ground (arith, h, other, gone))
    | inr ((first, rest), there) ↦
        let answer : split_once at (c ∷ text) ≡ some (c ∷ first, rest) =
          rw (other, there, split_once) refl in
        let (text_is, none_there) = split_once-some at text first rest there in
        subst (λ (x : Text × Text). (c ∷ text ≡ x.0 ++ at ∷ x.1) × (member at x.0 ≡ false))
          (some-cancel answer h) (ap (λ t. c ∷ t) text_is, ground (arith, other, none_there))
  ]
]

abbrev pub bot : Text
bot = b'b' ∷ b'o' ∷ b't' ∷ []

abbrev pub file : Text
file = b'f' ∷ b'i' ∷ b'l' ∷ b'e' ∷ b'/' ∷ []

abbrev pub under : Option Text → Text
under none = []
under (some name) = b'c' ∷ b'/' ∷ name ++ b'/' ∷ []

abbrev pub IsName : Option Text → Type 0
IsName none = Unit {0}
IsName (some name) = (valid_name name ≡ true) × (member b'/' name ≡ false)

module _ (decode : Text → Option Text) where
  -- A token as it stands in a path.
  pub record IsToken (encoded token : Text) : Type 0 where
    pub decoded : decode encoded ≡ some token
    pub valid : gateway_token token ≡ true
    pub one_segment : member b'/' (bot ++ encoded) ≡ false

  -- Which path a parsed path stands for.
  pub data Accepted : Text → GatewayPath → Type 0 where
    accepted_method :
        {consumer : Option Text} {token method : Text} (encoded : Text)
        → IsName consumer
        → IsToken encoded token
        → valid_method method ≡ true
        → Accepted
            (b'/' ∷ (under consumer ++ ((bot ++ encoded) ++ b'/' ∷ method)))
            (method_of consumer token method)
    accepted_file :
        {consumer : Option Text} {token file_path : Text} (encoded : Text)
        → IsName consumer
        → IsToken encoded token
        → valid_file_path file_path ≡ true
        → Accepted
            (b'/' ∷ (under consumer ++ (file ++ ((bot ++ encoded) ++ b'/' ∷ file_path))))
            (file_of consumer token file_path)

  token_segment-IsToken :
      (segment token : Text)
      → token_segment decode segment ≡ some token
      → member b'/' segment ≡ false
      → (encoded : Text) × (segment ≡ bot ++ encoded) × IsToken encoded token
  unfolding token_segment
  token_segment-IsToken segment token h one =
      let (encoded, e, f) = some-bind (strip_prefix bot segment) _ token h in
      let (decoded, g, k) = some-bind (decode encoded) _ token f in
      let (good, same) = then_some-true (gateway_token decoded) decoded token k in
      let whole = strip_prefix-some bot segment encoded e in
      (
        encoded,
        whole,
        record {
          decoded = g ∙ ap some same;
          valid = subst (λ t. gateway_token t ≡ true) same good;
          one_segment = subst (λ t. member b'/' t ≡ false) whole one;
        },
      )

  consumer_part-under :
      (rest behind : Text) (consumer : Option Text)
      → consumer_part decode rest ≡ some (consumer, behind)
      → (rest ≡ under consumer ++ behind) × IsName consumer
  unfolding consumer_part
  consumer_part-under rest behind consumer h =
      elim (Option-cases (strip_prefix (b'c' ∷ b'/' ∷ []) rest)) [
        | inl plain ↦
            let answer : consumer_part decode rest ≡ some (none, rest) =
              rw (plain, consumer_part) refl in
            subst (λ (x : Option Text × Text). (rest ≡ under x.0 ++ x.1) × IsName x.0)
              (some-cancel answer h) (refl, tt)
        | inr (below, there) ↦
            let answer : consumer_part decode rest
                ≡ (split_once b'/' below >>= λ x. then_some (valid_name x.0) (some x.0, x.1)) =
              rw (there, consumer_part) refl in
            let ((name, after), e, f) =
              some-bind (split_once b'/' below) _ (consumer, behind) (sym answer ∙ h) in
            let (good, same) =
              then_some-true (valid_name name) (some name, after) (consumer, behind) f in
            let (below_is, one) = split_once-some b'/' below name after e in
            let whole : rest ≡ under (some name) ++ after =
              strip_prefix-some (b'c' ∷ b'/' ∷ []) rest below there
              ∙ ap (λ t. b'c' ∷ b'/' ∷ t) (below_is ∙ sym (append_assoc name (b'/' ∷ []) after)) in
            subst (λ (x : Option Text × Text). (rest ≡ under x.0 ++ x.1) × IsName x.0) same
              (whole, (good, one))
      ]

  parse_method-Accepted :
      (consumer : Option Text) (rest : Text) (p : GatewayPath)
      → IsName consumer
      → parse_method decode consumer rest ≡ some p
      → Accepted (b'/' ∷ (under consumer ++ rest)) p
  unfolding parse_method
  parse_method-Accepted consumer rest p name h =
      let ((segment, method), e, f) = some-bind (split_once b'/' rest) _ p h in
      let (token, g, k) = some-bind (token_segment decode segment) _ p f in
      let (good, same) =
        then_some-true (valid_method method) (method_of consumer token method) p k in
      let (rest_is, one) = split_once-some b'/' rest segment method e in
      let (encoded, segment_is, is_token) = token_segment-IsToken segment token g one in
      let whole : rest ≡ (bot ++ encoded) ++ b'/' ∷ method =
        rest_is ∙ ap (λ t. t ++ b'/' ∷ method) segment_is in
      subst (λ q. Accepted (b'/' ∷ (under consumer ++ rest)) q) same
        (subst (λ t. Accepted (b'/' ∷ (under consumer ++ t)) (method_of consumer token method))
          (sym whole) (accepted_method encoded name is_token good))

  parse_file-Accepted :
      (consumer : Option Text) (rest : Text) (p : GatewayPath)
      → IsName consumer
      → parse_file decode consumer rest ≡ some p
      → Accepted (b'/' ∷ (under consumer ++ (file ++ rest))) p
  unfolding parse_file
  parse_file-Accepted consumer rest p name h =
      let ((segment, path), e, f) = some-bind (split_once b'/' rest) _ p h in
      let (token, g, k) = some-bind (token_segment decode segment) _ p f in
      let (good, same) = then_some-true (valid_file_path path) (file_of consumer token path) p k in
      let (rest_is, one) = split_once-some b'/' rest segment path e in
      let (encoded, segment_is, is_token) = token_segment-IsToken segment token g one in
      let whole : rest ≡ (bot ++ encoded) ++ b'/' ∷ path =
        rest_is ∙ ap (λ t. t ++ b'/' ∷ path) segment_is in
      subst (λ q. Accepted (b'/' ∷ (under consumer ++ (file ++ rest))) q) same
        (subst
          (λ t. Accepted (b'/' ∷ (under consumer ++ (file ++ t))) (file_of consumer token path))
          (sym whole) (accepted_file encoded name is_token good))

  -- When parse takes a path apart, the path is exactly a slash, the consumer under c/ if there
  -- is one, file/ for a file, then bot, an encoded token within one segment, a slash and the
  -- method or the file path; the consumer is a valid name of one segment, the token is what the
  -- encoded one decodes to and is a gateway token, the method is valid, and the file path is
  -- valid, with no dot segment and no backslash.
  pub parse-Accepted :
      (path : Text) (p : GatewayPath) → parse decode path ≡ some p → Accepted path p
  unfolding parse
  parse-Accepted path p h =
      let (rest, e, f) = some-bind (strip_prefix (b'/' ∷ []) path) _ p h in
      let ((consumer, behind), g, k) = some-bind (consumer_part decode rest) _ p f in
      let (rest_is, name) = consumer_part-under rest behind consumer g in
      let path_is : path ≡ b'/' ∷ (under consumer ++ behind) =
        strip_prefix-some (b'/' ∷ []) path rest e ∙ ap (λ t. b'/' ∷ t) rest_is in
      subst (λ t. Accepted t p) (sym path_is)
        (elim (Option-cases (strip_prefix file behind)) [
          | inl plain ↦
              let answer : parse_method decode consumer behind ≡ some p =
                ground (arith, k, plain) in
              parse_method-Accepted consumer behind p name answer
          | inr (inside, there) ↦
              let answer : parse_file decode consumer inside ≡ some p = ground (arith, k, there) in
              subst (λ t. Accepted (b'/' ∷ (under consumer ++ t)) p)
                (sym (strip_prefix-some file behind inside there))
                (parse_file-Accepted consumer inside p name answer)
        ])
