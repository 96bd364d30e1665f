-- ===== src/Mcauth/Saves.antt =====
-- What a save leaves in the directory, at its end and at each moment before.
use minecraft_afk_bot.Mcauth.Names.{token_file_name-temporary}
use minecraft_afk_bot.Mcauth.{
  ok, token_file_name, Disk, Op, create, close, remove, apply, apply_all, Created, created,
  not_created, Faults, fill, temporary, save_created, Encoded, encoded, not_encoded, Codec,
  save_encoded, save_token,
}
use minecraft_afk_bot.Prelude.{
  Text, ℕ, zero, suc, ◌≡◌, ◌⊎◌, inl, refl, true, false, List, [], ◌∷◌, ◌++◌, Option, none, some,
  take, equal, equal_iff, arith,
}

-- A property of the directory before the first of some operations and behind each of them.
abbrev Always : (Disk → Type 0) → Disk → List Op → Type 0
Always P d [] = P d
Always P d (op ∷ ops) = P d × Always P (apply op d) ops

Always-take :
    (P : Disk → Type 0) (d : Disk) (ops : List Op) (n : ℕ)
    → Always P d ops
    → P (apply_all (take n ops) d)
Always-take P d [] zero h = h
Always-take P d [] (suc n) h = h
Always-take P d (op ∷ ops) zero h = h.0
Always-take P d (op ∷ ops) (suc n) h = Always-take P (apply op d) ops n h.1

-- What is found is what was there, or all of the new content.
abbrev pub Whole : Option Text → Text → Option Text → Type 0
Whole old bytes now = (now ≡ old) ⊎ (now ≡ some bytes)

equal_self : (s : Text) → equal s s ≡ true
equal_self s = (equal_iff s s).1 refl

fill-Always :
    (f : Faults) (tmp path bytes : Text) (d : Disk)
    → equal path tmp ≡ false
    → Always
        (λ e. Whole (d path) bytes (e path))
        d
        (create tmp ∷ ((fill f tmp path bytes).0 ++ close tmp ∷ remove tmp ∷ []))
unfolding fill apply
fill-Always f tmp path bytes d other = ground (arith, other, equal_self path, equal_self tmp)

save_created-Always :
    (f : Faults) (path bytes : Text) (made : Created) (d : Disk)
    → ((star : Text) → equal path (temporary star) ≡ false)
    → Always (λ e. Whole (d path) bytes (e path)) d (save_created f path bytes made).0
unfolding save_created
save_created-Always f path bytes (not_created e) d other = inl refl
save_created-Always f path bytes (created star) d other =
    fill-Always f (temporary star) path bytes d (other star)

-- What a save of a token may leave in its file.
abbrev pub MayHold : Option Text → Encoded → Option Text → Type 0
MayHold old (not_encoded e) now = now ≡ old
MayHold old (encoded bytes) now = Whole old bytes now

save_encoded-MayHold :
    (f : Faults) (path : Text) (x : Encoded) (d : Disk) (n : ℕ)
    → ((star : Text) → equal path (temporary star) ≡ false)
    → MayHold (d path) x (apply_all (take n (save_encoded f path x).0) d path)
save_encoded-MayHold f path (not_encoded e) d zero other = refl
save_encoded-MayHold f path (not_encoded e) d (suc n) other = refl
save_encoded-MayHold f path (encoded bytes) d n other =
    Always-take (λ e. Whole (d path) bytes (e path)) d (save_created f path bytes f.create).0 n
      (save_created-Always f path bytes f.create d other)

-- Wherever a save is cut off, and whichever of its calls fail, the account's file holds what it
-- held before or all of the new token; a token that cannot be encoded changes nothing.
pub save_token-MayHold :
    (Token : Type 0) (c : Codec Token) (digest : Text → Text) (f : Faults) (username path : Text)
    (tok : Token) (d : Disk) (n : ℕ)
    → token_file_name digest username ≡ ok path
    → MayHold (d path) (c.marshal tok) (apply_all (take n (save_token c f path tok).0) d path)
unfolding save_token
save_token-MayHold Token c digest f username path tok d n h =
    save_encoded-MayHold f path (c.marshal tok) d n
      λ star. token_file_name-temporary digest username path star h

-- At its end, by its result: all of the new token, or what was there.
abbrev pub Ends : Option Text → Encoded → Option Text → Option Text → Type 0
Ends old (encoded bytes) none now = now ≡ some bytes
Ends old (not_encoded e) none now = ⊥
Ends old x (some e) now = now ≡ old

fill-Ends :
    (f : Faults) (tmp path bytes : Text) (d : Disk)
    → equal path tmp ≡ false
    → Ends
        (d path)
        (encoded bytes)
        (fill f tmp path bytes).1
        (apply_all (create tmp ∷ ((fill f tmp path bytes).0 ++ close tmp ∷ remove tmp ∷ [])) d path)
unfolding fill apply
fill-Ends f tmp path bytes d other = ground (arith, other, equal_self path, equal_self tmp)

save_created-Ends :
    (f : Faults) (path bytes : Text) (made : Created) (d : Disk)
    → ((star : Text) → equal path (temporary star) ≡ false)
    → Ends
        (d path)
        (encoded bytes)
        (save_created f path bytes made).1
        (apply_all (save_created f path bytes made).0 d path)
unfolding save_created
save_created-Ends f path bytes (not_created e) d other = refl
save_created-Ends f path bytes (created star) d other =
    fill-Ends f (temporary star) path bytes d (other star)

save_encoded-Ends :
    (f : Faults) (path : Text) (x : Encoded) (d : Disk)
    → ((star : Text) → equal path (temporary star) ≡ false)
    → Ends (d path) x (save_encoded f path x).1 (apply_all (save_encoded f path x).0 d path)
save_encoded-Ends f path (not_encoded e) d other = refl
save_encoded-Ends f path (encoded bytes) d other = save_created-Ends f path bytes f.create d other

-- A save that returns no error leaves all of the new token in the account's file, and one that
-- returns an error leaves the file as it was.
pub save_token-Ends :
    (Token : Type 0) (c : Codec Token) (digest : Text → Text) (f : Faults) (username path : Text)
    (tok : Token) (d : Disk)
    → token_file_name digest username ≡ ok path
    → Ends
        (d path)
        (c.marshal tok)
        (save_token c f path tok).1
        (apply_all (save_token c f path tok).0 d path)
unfolding save_token
save_token-Ends Token c digest f username path tok d h =
    save_encoded-Ends f path (c.marshal tok) d
      λ star. token_file_name-temporary digest username path star h
