-- ===== src/Rules/ChatTypes.antt =====
-- The bits of chat types that crates/tgin-core/src/rules/compile.rs ors together.
use tgin.Prelude.{
  ℕ, ◌≤◌, ◌<◌, ◌≡◌, refl, false, ◌||◌, Option, none, some, List, [], ◌∷◌, ◌==◌, arith,
}
use tgin.Core.{
  ChatType, private_chat, group, supergroup, channel, other, ordinal, has_bit, with_bit,
}
use tgin.Rules.Compile.{type_bits}
use tgin.Rules.Route.{has_type}
use tgin.Rules.Written.{type_among, type_allowed}

has_bit-with_bit :
    (mask : ℕ) (t u : ChatType)
    → has_bit (with_bit mask t) u ≡ (has_bit mask u || ordinal t == ordinal u)
has_bit-with_bit mask private_chat u = go u
  where
    go :
        (u : ChatType)
        → has_bit (with_bit mask private_chat) u
          ≡ (has_bit mask u || ordinal private_chat == ordinal u)
    go private_chat = ground arith
    go group = ground arith
    go supergroup = ground arith
    go channel = ground arith
    go other = ground arith
has_bit-with_bit mask group u = go u
  where
    go :
        (u : ChatType)
        → has_bit (with_bit mask group) u ≡ (has_bit mask u || ordinal group == ordinal u)
    go private_chat = ground arith
    go group = ground arith
    go supergroup = ground arith
    go channel = ground arith
    go other = ground arith
has_bit-with_bit mask supergroup u = go u
  where
    go :
        (u : ChatType)
        → has_bit (with_bit mask supergroup) u ≡ (has_bit mask u || ordinal supergroup == ordinal u)
    go private_chat = ground arith
    go group = ground arith
    go supergroup = ground arith
    go channel = ground arith
    go other = ground arith
has_bit-with_bit mask channel u = go u
  where
    go :
        (u : ChatType)
        → has_bit (with_bit mask channel) u ≡ (has_bit mask u || ordinal channel == ordinal u)
    go private_chat = ground arith
    go group = ground arith
    go supergroup = ground arith
    go channel = ground arith
    go other = ground arith
has_bit-with_bit mask other u = go u
  where
    go :
        (u : ChatType)
        → has_bit (with_bit mask other) u ≡ (has_bit mask u || ordinal other == ordinal u)
    go private_chat = ground arith
    go group = ground arith
    go supergroup = ground arith
    go channel = ground arith
    go other = ground arith

has_bit-type_bits :
    (mask : ℕ) (ts : List ChatType) (u : ChatType)
    → has_bit (type_bits mask ts) u ≡ (has_bit mask u || type_among u ts)
unfolding type_bits
has_bit-type_bits mask [] u = ground arith
has_bit-type_bits mask (t ∷ ts) u =
    ground (arith, has_bit-type_bits (with_bit mask t) ts u, has_bit-with_bit mask t u)

with_bit-pos : (mask : ℕ) (t : ChatType) → 0 < with_bit mask t
with_bit-pos mask private_chat = ground arith
with_bit-pos mask group = ground arith
with_bit-pos mask supergroup = ground arith
with_bit-pos mask channel = ground arith
with_bit-pos mask other = ground arith

le-with_bit : (mask : ℕ) (t : ChatType) → mask ≤ with_bit mask t
le-with_bit mask t = ground arith

le-type_bits : (mask : ℕ) (ts : List ChatType) → mask ≤ type_bits mask ts
unfolding type_bits
le-type_bits mask [] = omega arith
le-type_bits mask (t ∷ ts) = omega (arith, le-type_bits (with_bit mask t) ts, le-with_bit mask t)

-- The mask of a rule lets through the chat types that are written for it.
pub has_type-type_bits :
    (ts : List ChatType) (x : Option ChatType)
    → (type_bits 0 ts == 0 || has_type (type_bits 0 ts) x) ≡ type_allowed x ts
unfolding type_bits
has_type-type_bits [] x = refl
has_type-type_bits (t ∷ ts) none = ground (arith, le-type_bits (with_bit 0 t) ts, with_bit-pos 0 t)
has_type-type_bits (t ∷ ts) (some u) = ground (
  arith,
  le-type_bits (with_bit 0 t) ts,
  with_bit-pos 0 t,
  has_bit-type_bits (with_bit 0 t) ts u,
  has_bit-with_bit 0 t u,
  zero_bit u,
)
  where
    zero_bit : (u : ChatType) → has_bit 0 u ≡ false
    zero_bit private_chat = refl
    zero_bit group = refl
    zero_bit supergroup = refl
    zero_bit channel = refl
    zero_bit other = refl
