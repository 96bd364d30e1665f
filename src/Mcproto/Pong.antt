-- ===== src/Mcproto/Pong.antt =====
-- What a pong is read as, and which protocol is announced for it.
use minecraft_afk_bot.Mcproto.{
  Advertisement, not_a_number, not_positive, PongError, Result, ok, err, Protocol, check_number,
  read_fields, parse_pong, split_pong, protocol_for, negotiate,
}
use minecraft_afk_bot.Mcproto.Split.{join, split_pong-join}
use minecraft_afk_bot.Prelude.Int.{ℤ, pos, negsuc, ◌≤ℤ◌, leb_ℤ, int_eq}
use minecraft_afk_bot.Prelude.Strings.{trim_space, parse_int}
use minecraft_afk_bot.Prelude.Strings.Numerals.{
  IsNumeral, parse_int-IsNumeral, parse_int-le, trim_space-IsDigit,
}
use minecraft_afk_bot.Prelude.{
  Text, ℕ, ◌^◌, true, false, List, [], ◌∷◌, Option, none, some, ◌≡◌, refl, arith, ltb,
  if◌then◌else◌, Option-cases, Bool-cases, inl, inr, ap, ◌∙◌, subst, ◌-◌, ◌≢◌, ◌⊎◌, ◌↔◌,
}

-- The pong that a server sends, whatever its name and the fields behind the version hold.
abbrev pub pong_of : Text → Text → Text → Text → List Text → Text
pong_of edition motd number version rest = join edition (motd ∷ number ∷ version ∷ rest)

-- A well-formed pong is read as the number and the version that the server wrote, if the number is
-- positive and fits an int32; a number that is 0 or does not fit is refused. Semicolons and
-- backslashes in the name, or in any field, change nothing.
pub parse_pong-pong_of :
    (edition motd number version : Text) (rest : List Text) (n : ℕ)
    → IsNumeral number n
    → parse_pong (pong_of edition motd number version rest) ≡ (
        if ltb n (2 ^ 31)
        then (if ltb 0 n
            then ok (record { protocol = pos n; version = version })
            else err (not_positive (pos 0)))
        else err (not_a_number number))
unfolding parse_pong
parse_pong-pong_of edition motd number version rest n h =
    rw (split_pong-join edition (motd ∷ number ∷ version ∷ rest)) (
      rw (trim_space-IsDigit number h.digits)
        (rw (parse_int-IsNumeral (2 ^ 31) n number h) (ground arith)))

-- A positive number that fits an int32.
abbrev pub IsProtocolNumber : ℤ → Type 0
IsProtocolNumber z = (pos 1 ≤ℤ z) × (z ≤ℤ pos (2 ^ 31 - 1))

parse_int-IsProtocolNumber :
    (field : Text) (z : ℤ)
    → parse_int (2 ^ 31) field ≡ some z
    → leb_ℤ z (pos 0) ≡ false
    → IsProtocolNumber z
parse_int-IsProtocolNumber field (pos n) h p = ground (arith, parse_int-le (2 ^ 31) n field h)
parse_int-IsProtocolNumber field (negsuc n) h p = ground arith

-- A field that is read as this number, which is positive and fits an int32.
abbrev Reads : Text → ℤ → Type 0
Reads field z = (parse_int (2 ^ 31) (trim_space field) ≡ some z) × IsProtocolNumber z

ok-injective : (a b : Advertisement) → ok a ≡ ok b → a ≡ b
ok-injective a b h = cc

check_number-ok :
    (field version : Text) (ad : Advertisement)
    → check_number field version (parse_int (2 ^ 31) (trim_space field)) ≡ ok ad
    → Reads field ad.protocol × (version ≡ ad.version)
unfolding check_number
check_number-ok field version ad h =
    let trimmed = trim_space field in
    elim (Option-cases (parse_int (2 ^ 31) trimmed)) [
      | inl e ↦ cc (rw e at h)
      | inr (z, e) ↦ elim (Bool-cases (leb_ℤ z (pos 0))) [
        | inl low ↦ cc (rw low at (rw e at h))
        | inr high ↦
            let same =
              ok-injective (record { protocol = z; version = version }) ad
                (rw high at (rw e at h)) in
            (
              (
                e ∙ ap (λ a. some a.protocol) same,
                subst (λ a. IsProtocolNumber a.protocol) same
                    (parse_int-IsProtocolNumber trimmed z e high),
              ),
              ap (λ a. a.version) same,
            )
      ]
    ]

-- A pong whose fourth field is the version, and whose third reads as the number.
abbrev pub Advertises : List Text → Advertisement → Type 0
Advertises fields ad =
    (edition : Text) × (motd : Text) × (number : Text) × (rest : List Text) × (fields
      ≡ edition ∷ motd ∷ number ∷ ad.version ∷ rest)
    × Reads number ad.protocol

read_fields-ok :
    (fields : List Text) (ad : Advertisement) → read_fields fields ≡ ok ad → Advertises fields ad
unfolding read_fields
read_fields-ok [] ad h = cc
read_fields-ok (a ∷ []) ad h = cc
read_fields-ok (a ∷ b ∷ []) ad h = cc
read_fields-ok (a ∷ b ∷ c ∷ []) ad h = cc
read_fields-ok (a ∷ b ∷ number ∷ version ∷ rest) ad h =
    let (read, same) = check_number-ok number version ad h in
    (a, b, number, rest, ap (λ v. a ∷ b ∷ number ∷ v ∷ rest) same, read)

-- Whatever the bytes of a pong, an accepted one gives the number of its third field, positive and
-- within an int32, so the conversion to int32 loses nothing, and the version of its fourth.
parse_pong-ok :
    (pong : Text) (ad : Advertisement) → parse_pong pong ≡ ok ad → Advertises (split_pong pong) ad
unfolding parse_pong
parse_pong-ok pong ad h = read_fields-ok (split_pong pong) ad h

int_eq_iff : (a b : ℤ) → (int_eq a b ≡ true) ↔ (a ≡ b)
int_eq_iff (pos a) (pos b) = ground arith
int_eq_iff (negsuc a) (negsuc b) = ground arith
int_eq_iff (pos a) (negsuc b) = ground arith
int_eq_iff (negsuc a) (pos b) = ground arith

Result-cases :
    (r : Result Advertisement)
    → ((e : PongError) × (r ≡ err e)) ⊎ ((ad : Advertisement) × (r ≡ ok ad))
Result-cases (err e) = inl (e, refl)
Result-cases (ok ad) = inr (ad, refl)

module _ {Schema : Type 0} (baked : Protocol Schema) where
  -- The compiled-in protocol, silently, or the number that the pong advertises on the compiled-in
  -- schema, reported once.
  abbrev pub Negotiated : Option Text → Protocol Schema × List Advertisement → Type 0
  Negotiated answer (p, calls) =
      ((p ≡ baked) × (calls ≡ []))
      ⊎ ((ad : Advertisement) × (pong : Text) × (answer ≡ some pong)
          × Advertises (split_pong pong) ad
          × (p ≡ record { id = ad.protocol; schema = baked.schema })
          × (calls ≡ ad ∷ [])
          × (ad.protocol ≢ baked.id))

  protocol_for-Negotiated :
      (pong : Text) (ad : Advertisement)
      → Advertises (split_pong pong) ad
      → Negotiated (some pong) (protocol_for ad baked true)
  unfolding protocol_for
  protocol_for-Negotiated pong ad h = elim (Bool-cases (int_eq ad.protocol baked.id)) [
    | inl same ↦ rw same (inl (refl, refl))
    | inr other ↦ rw other (
        inr
          (ad, pong, refl, h, refl, refl, (λ e. cc (other, (int_eq_iff ad.protocol baked.id).1 e))))
  ]

  -- `Negotiate` never fails: whether or not the server answered and whatever it answered, the
  -- result is the compiled-in protocol with nothing reported, or the compiled-in schema under the
  -- number in the third field of the pong, which is positive, fits an int32 and differs from the
  -- compiled-in one, and which is reported exactly once with the version in the fourth field.
  pub negotiate-Negotiated :
      (answer : Option Text) → Negotiated answer (negotiate answer baked true)
  unfolding negotiate
  negotiate-Negotiated none = inl (refl, refl)
  negotiate-Negotiated (some pong) = elim (Result-cases (parse_pong pong)) [
    | inl (e, h) ↦ rw h (inl (refl, refl))
    | inr (ad, h) ↦ rw h (protocol_for-Negotiated pong ad (parse_pong-ok pong ad h))
  ]
