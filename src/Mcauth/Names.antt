-- ===== src/Mcauth/Names.antt =====
-- Which file an account has.
use minecraft_afk_bot.Mcauth.{
  Result, ok, err, is_kept, slug_char, token_slug_limit, token_file_name, temporary,
}
use minecraft_afk_bot.Prelude.Strings.{codes, trim_space}
use minecraft_afk_bot.Prelude.{
  Text, ℕ, zero, suc, ◌≤◌, ◌≡◌, refl, ◌∙◌, ap, sym, subst, true, false, ◌||◌, [], ◌∷◌, ◌++◌, map,
  take, length, length-append, is_empty, equal, arith, Bool-cases, inl, inr, All, All-append,
  append_assoc, ◌==◌,
}

abbrev text_of : Result Text → Text
text_of (ok s) = s
text_of (err e) = []

-- A name, if there is one, has the written form.
pub token_file_name-ok :
    (digest : Text → Text) (username path : Text)
    → token_file_name digest username ≡ ok path
    → (is_empty (trim_space username) ≡ false)
      × (path
          ≡ codes "token-"
            ++ (take token_slug_limit (map slug_char (trim_space username))
                ++ (codes "-" ++ (digest (trim_space username) ++ codes ".json"))))
unfolding token_file_name
token_file_name-ok digest username path h = elim (Bool-cases (is_empty (trim_space username))) [
  | inl e ↦ cc (rw e at h)
  | inr e ↦ (e, sym (ap text_of (rw e at h)))
]

-- The name is not that of a temporary file.
pub token_file_name-temporary :
    (digest : Text → Text) (username path star : Text)
    → token_file_name digest username ≡ ok path
    → equal path (temporary star) ≡ false
unfolding equal
token_file_name-temporary digest username path star h =
    subst (λ p. equal p (temporary star) ≡ false)
      (sym (token_file_name-ok digest username path h).1) refl

-- A character that no file system takes for a separator or an upper-case letter.
abbrev pub IsFileChar : ℕ → Type 0
IsFileChar c = (is_kept c || c == b'.') ≡ true

slug_char-IsFileChar : (c : ℕ) → IsFileChar (slug_char c)
unfolding slug_char
slug_char-IsFileChar c = ground arith

slug-IsFileChar : (n : ℕ) (s : Text) → All IsFileChar (take n (map slug_char s))
slug-IsFileChar zero s = tt
slug-IsFileChar (suc n) [] = tt
slug-IsFileChar (suc n) (c ∷ s) = (slug_char-IsFileChar c, slug-IsFileChar n s)

length-take : (n : ℕ) (s : Text) → length (take n s) ≤ n
length-take zero s = omega arith
length-take (suc n) [] = omega arith
length-take (suc n) (c ∷ s) = omega (arith, length-take n s)

-- Eight characters of lower-case hexadecimal.
abbrev pub IsDigest : Text → Type 0
IsDigest s = (length s ≡ 8) × All IsFileChar s

-- Whatever the user name holds, separators and dots included, its file name is made of lower-case
-- letters, digits, dashes, underscores and dots, and has at most 52 characters, if the digest is
-- eight such characters.
pub token_file_name-IsFileChar :
    (digest : Text → Text) (username path : Text)
    → ((s : Text) → IsDigest (digest s))
    → token_file_name digest username ≡ ok path
    → All IsFileChar path × (length path ≤ 52)
token_file_name-IsFileChar digest username path hex h =
    let name = trim_space username in
    let slug = take token_slug_limit (map slug_char name) in
    let tail = digest name ++ codes ".json" in
    let (eight, plain) = hex name in
    subst (λ p. All IsFileChar p × (length p ≤ 52))
      (sym (token_file_name-ok digest username path h).1)
      (
        All-append IsFileChar (codes "token-") (slug ++ (codes "-" ++ tail))
            (refl, (refl, (refl, (refl, (refl, (refl, tt))))))
            (All-append IsFileChar slug (codes "-" ++ tail)
              (slug-IsFileChar token_slug_limit (name))
              (
                refl,
                All-append IsFileChar (digest name) (codes ".json") plain
                    (refl, (refl, (refl, (refl, (refl, tt))))),
              )),
        omega (
          arith,
          eight,
          length-take token_slug_limit (map slug_char name),
          length-append slug (codes "-" ++ tail),
          length-append (digest name) (codes ".json"),
        ),
      )

tail_of : Text → Text
tail_of [] = []
tail_of (c ∷ s) = s

append-tail : (a b s t : Text) → a ++ s ≡ b ++ t → length a ≡ length b → s ≡ t
unfolding tail_of
append-tail [] [] s t h l = h
append-tail (x ∷ a) (y ∷ b) s t h l = append-tail a b s t (ap tail_of h) (omega arith)
append-tail [] (y ∷ b) s t h l = absurd (omega arith)
append-tail (x ∷ a) [] s t h l = absurd (omega arith)

-- Two texts with one end begin alike.
append-cancel : (a b s : Text) → length a ≡ length b → a ++ s ≡ b ++ s → a ≡ b
append-cancel [] [] s l h = refl
append-cancel (x ∷ a) (y ∷ b) s l h =
    cc (append-cancel a b s (omega arith) (unfold tail_of in ap tail_of h), h)
append-cancel [] (y ∷ b) s l h = absurd (omega arith)
append-cancel (x ∷ a) [] s l h = absurd (omega arith)

-- Two texts that end in texts of one length, and are equal, end alike.
append-ends : (a b s t : Text) → length s ≡ length t → a ++ s ≡ b ++ t → s ≡ t
append-ends a b s t l h =
    append-tail a b s t h (omega (arith, ap length h, length-append a s, length-append b t))

-- Two user names have one file only if the digests of the trimmed names are equal, whatever their
-- readable parts, if the digest is eight characters.
pub token_file_name-digest :
    (digest : Text → Text) (username username' path : Text)
    → ((s : Text) → IsDigest (digest s))
    → token_file_name digest username ≡ ok path
    → token_file_name digest username' ≡ ok path
    → digest (trim_space username) ≡ digest (trim_space username')
token_file_name-digest digest username username' path hex h h' =
    let name = trim_space username in
    let name' = trim_space username' in
    let slug = take token_slug_limit (map slug_char name) in
    let slug' = take token_slug_limit (map slug_char name') in
    let tail = digest name ++ codes ".json" in
    let tail' = digest name' ++ codes ".json" in
    let same =
      sym (token_file_name-ok digest username path h).1
      ∙ (token_file_name-ok digest username' path h').1 in
    let ends =
      append-ends (codes "token-" ++ (slug ++ codes "-")) (codes "token-" ++ (slug' ++ codes "-"))
        tail tail'
        (omega (
          arith,
          (hex name).0,
          (hex name').0,
          length-append (digest name) (codes ".json"),
          length-append (digest name') (codes ".json"),
        ))
        (ap (λ z. codes "token-" ++ z) (append_assoc slug (codes "-") tail)
          ∙ (same ∙ ap (λ z. codes "token-" ++ z) (sym (append_assoc slug' (codes "-") tail')))) in
    append-cancel (digest name) (digest name') (codes ".json")
      (omega (arith, (hex name).0, (hex name').0)) ends
