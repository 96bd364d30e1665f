-- ===== src/Mcproto/Split.antt =====
-- How a server escapes the fields of a pong, and how they are split.
use minecraft_afk_bot.Mcproto.{split_from, split_pong}
use minecraft_afk_bot.Prelude.{
  Text, false, ◌||◌, List, [], ◌∷◌, ◌++◌, append-nil, append_assoc, ◌≡◌, ◌∙◌, ap, sym, arith, ◌==◌,
  if◌then◌else◌,
}

-- How a server writes one field: a backslash before each semicolon and backslash.
abbrev pub escape : Text → Text
escape [] = []
escape (r ∷ s) =
    let rest = escape s in if r == b'\\' || r == b';' then b'\\' ∷ r ∷ rest else r ∷ rest

-- A pong of one field or more.
abbrev pub join : Text → List Text → Text
join f [] = escape f
join f (g ∷ fields) = escape f ++ b';' ∷ join g fields

split_from-escape :
    (done : List Text) (cur s rest : Text)
    → split_from done cur false (escape s ++ rest) ≡ split_from done (cur ++ s) false rest
unfolding split_from
split_from-escape done cur [] rest = rw append-nil
split_from-escape done cur (r ∷ s) rest =
    ground (arith, split_from-escape done (cur ++ r ∷ []) s rest, append_assoc cur (r ∷ []) s)

split_from-join :
    (done : List Text) (f : Text) (fields : List Text)
    → split_from done [] false (join f fields) ≡ done ++ f ∷ fields
unfolding split_from
split_from-join done f [] =
    ap (split_from done [] false) (sym (append-nil (escape f))) ∙ split_from-escape done [] f []
split_from-join done f (g ∷ fields) =
    split_from-escape done [] f (b';' ∷ join g fields)
    ∙ split_from-join (done ++ f ∷ []) g fields
    ∙ append_assoc done (f ∷ []) (g ∷ fields)

-- Whatever the fields hold, semicolons and backslashes included, splitting a pong that escapes them
-- gives them back, and no field shifts.
pub split_pong-join : (f : Text) (fields : List Text) → split_pong (join f fields) ≡ f ∷ fields
unfolding split_pong
split_pong-join f fields = split_from-join [] f fields
