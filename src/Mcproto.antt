-- ===== src/Mcproto.antt =====
-- internal/mcproto/protocol.go: which protocol number to announce, from a server's pong.
pub mod Split
pub mod Pong
use minecraft_afk_bot.Prelude.Int.{ℤ, pos, leb_ℤ, int_eq}
use minecraft_afk_bot.Prelude.Strings.{trim_space, parse_int}
use minecraft_afk_bot.Prelude.{
  Text, ℕ, zero, suc, ◌^◌, Bool, true, false, not, ◌&&◌, List, [], ◌∷◌, ◌++◌, Option, none, some,
  length, ltb, ◌==◌, if◌then◌else◌,
}

pub record Advertisement : Type 0 where
  pub protocol : ℤ
  pub version : Text

pub data PongError : Type 0 where
  few_fields : ℕ → PongError
  not_a_number : Text → PongError
  not_positive : ℤ → PongError

pub data Result {ℓ} (A : Type ℓ) : Type ℓ where
  ok : A → Result A
  err : PongError → Result A

-- A `minecraft.Protocol`: its number, and everything else that it does, which the module supplies.
pub record Protocol (Schema : Type 0) : Type 0 where
  pub id : ℤ
  pub schema : Schema

-- The loop of `splitPong`: the finished fields, the current one, and the flag.
unfoldable pub split_from : List Text → Text → Bool → Text → List Text
split_from fields cur escape [] = fields ++ cur ∷ []
split_from fields cur true (r ∷ s) = split_from fields (cur ++ r ∷ []) false s
split_from fields cur false (r ∷ s) =
    let escaped = split_from fields cur true s in
    let separated = split_from (fields ++ cur ∷ []) [] false s in
    let plain = split_from fields (cur ++ r ∷ []) false s in
    if r == b'\\' then escaped else if r == b';' then separated else plain

unfoldable pub split_pong : Text → List Text
unfolding split_from
split_pong s = split_from [] [] false s

-- From the parsed number.
unfoldable pub check_number : Text → Text → Option ℤ → Result Advertisement
check_number field version none = err (not_a_number field)
check_number field version (some n) =
    if leb_ℤ n (pos 0)
    then err (not_positive n)
    else ok (record { protocol = n; version = version })

-- From the fields; the patterns are the test of their number.
unfoldable pub read_fields : List Text → Result Advertisement
unfolding check_number
read_fields (a ∷ b ∷ protocol ∷ version ∷ rest) =
    check_number protocol version (parse_int (2 ^ 31) (trim_space protocol))
read_fields fields = err (few_fields (length fields))

unfoldable pub parse_pong : Text → Result Advertisement
unfolding read_fields
parse_pong pong = read_fields (split_pong pong)

module _ {Schema : Type 0} where
  -- `spoofed`: the embedded protocol with its `ID` replaced.
  abbrev pub spoofed : Protocol Schema → ℤ → Protocol Schema
  spoofed baked id = record baked { id = id }

  -- The protocol, and the calls of `onSpoof`; `has_callback` is `onSpoof != nil`.
  unfoldable pub protocol_for :
      Advertisement → Protocol Schema → Bool → Protocol Schema × List Advertisement
  protocol_for ad baked has_callback =
      if int_eq ad.protocol baked.id
      then (baked, [])
      else (spoofed baked ad.protocol, if has_callback then ad ∷ [] else [])

  abbrev announce_pong :
      Result Advertisement → Protocol Schema → Bool → Protocol Schema × List Advertisement
  unfolding protocol_for
  announce_pong (err e) baked has_callback = (baked, [])
  announce_pong (ok ad) baked has_callback = protocol_for ad baked has_callback

  -- `PingContext` gives a pong, or an error.
  unfoldable pub negotiate :
      Option Text → Protocol Schema → Bool → Protocol Schema × List Advertisement
  unfolding protocol_for
  negotiate none baked has_callback = (baked, [])
  negotiate (some pong) baked has_callback = announce_pong (parse_pong pong) baked has_callback
