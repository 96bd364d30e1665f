-- ===== src/Examples/Pongs.antt =====
-- Tests of internal/mcproto/protocol.go.
use minecraft_afk_bot.Mcproto.Pong.{pong_of, Negotiated, parse_pong-pong_of, negotiate-Negotiated}
use minecraft_afk_bot.Mcproto.{
  ok, err, not_a_number, not_positive, Protocol, split_pong, read_fields, check_number, parse_pong,
  negotiate,
}
use minecraft_afk_bot.Prelude.Int.{pos}
use minecraft_afk_bot.Prelude.Strings.Numerals.{itoa-IsNumeral}
use minecraft_afk_bot.Prelude.Strings.Decimal.{itoa, parse_int, parse_uint, scan_digits, is_digit}
use minecraft_afk_bot.Prelude.Strings.{codes, trim_space}
use minecraft_afk_bot.Prelude.{Text, ℕ, true, ◌^◌, [], ◌∷◌, some, ◌≡◌, refl, ltb, if◌then◌else◌}

abbrev pong : Text
pong = codes "MCPE;a\\;b;776;1.21.2;0;10"

abbrev baked : Protocol ℕ
baked = record { id = pos 748; schema = 0 }

-- The semicolon of the name does not shift the fields.
parse_pong_run : parse_pong pong ≡ ok (record { protocol = pos 776; version = codes "1.21.2" })
unfolding parse_pong split_pong read_fields check_number parse_int parse_uint scan_digits is_digit
    trim_space
parse_pong_run = refl

parse_pong-pong_of_example :
    parse_pong (pong_of (codes "MCPE") (codes "a;b\\") (itoa 776) (codes "1.21.2") (codes "0" ∷ []))
    ≡ (if ltb 776 (2 ^ 31)
        then (if ltb 0 776
            then ok (record { protocol = pos 776; version = codes "1.21.2" })
            else err (not_positive (pos 0)))
        else err (not_a_number (itoa 776)))
parse_pong-pong_of_example =
    parse_pong-pong_of (codes "MCPE") (codes "a;b\\") (itoa 776) (codes "1.21.2") (codes "0" ∷ [])
      776 (itoa-IsNumeral 776)

negotiate-Negotiated_example : Negotiated baked (some pong) (negotiate (some pong) baked true)
negotiate-Negotiated_example = negotiate-Negotiated baked (some pong)
