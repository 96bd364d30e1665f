-- ===== src/Mcauth/Temporary.antt =====
-- What the steps of one save do to its temporary file, and to the others.
use minecraft_afk_bot.Mcauth.{
  Disk, Op, create, chmod, sync, close, remove, write, rename, apply, Faults, fill, temporary,
}
use minecraft_afk_bot.Prelude.{
  Text, ◌≡◌, ◌⊎◌, inl, inr, refl, sym, true, false, List, [], ◌∷◌, ◌++◌, Option, none, some, equal,
  equal_iff, arith, Bool-cases,
}

-- Steps that touch one temporary file, which holds `now`, and put it at `path` only once it holds
-- `bytes`.
abbrev pub Tame : Text → Text → Text → Option Text → List Op → Type 0
Tame tmp path bytes now [] = Unit
Tame tmp path bytes now (create t ∷ ops) = (t ≡ tmp) × Tame tmp path bytes (some []) ops
Tame tmp path bytes now (write t s ∷ ops) = (t ≡ tmp) × Tame tmp path bytes (some s) ops
Tame tmp path bytes now (rename t p ∷ ops) =
    (t ≡ tmp) × (p ≡ path) × (now ≡ some bytes) × Tame tmp path bytes none ops
Tame tmp path bytes now (remove t ∷ ops) = (t ≡ tmp) × Tame tmp path bytes none ops
Tame tmp path bytes now (chmod t ∷ ops) = Tame tmp path bytes now ops
Tame tmp path bytes now (sync t ∷ ops) = Tame tmp path bytes now ops
Tame tmp path bytes now (close t ∷ ops) = Tame tmp path bytes now ops

pub equal_self : (s : Text) → equal s s ≡ true
equal_self s = (equal_iff s s).1 refl

-- One step: the temporary file and what is left stay tame, every other file but `path` is left
-- alone, and `path` is left alone or gets `bytes`.
pub record Stepped (tmp path bytes : Text) (op : Op) (ops : List Op) (d : Disk) : Type 0 where
  pub tame : Tame tmp path bytes (apply op d tmp) ops
  pub others :
      (name : Text) → equal name tmp ≡ false → equal name path ≡ false → apply op d name ≡ d name
  pub path_whole : (apply op d path ≡ d path) ⊎ (apply op d path ≡ some bytes)

pub step-Tame :
    (tmp path bytes : Text) (op : Op) (ops : List Op) (d : Disk)
    → equal path tmp ≡ false
    → equal tmp path ≡ false
    → Tame tmp path bytes (d tmp) (op ∷ ops)
    → Stepped tmp path bytes op ops d
unfolding apply
step-Tame tmp path bytes (create t) ops d other rehto (e, h) = record {
  tame = rw (e, equal_self tmp) h;
  others = λ name a b. rw (e, a) refl;
  path_whole = inl (rw (e, other) refl);
}
step-Tame tmp path bytes (write t s) ops d other rehto (e, h) = record {
  tame = rw (e, equal_self tmp) h;
  others = λ name a b. rw (e, a) refl;
  path_whole = inl (rw (e, other) refl);
}
step-Tame tmp path bytes (rename t p) ops d other rehto (e, q, now, h) = record {
  tame = rw (e, q, rehto, equal_self tmp) h;
  others = λ name a b. rw (e, q, a, b) refl;
  path_whole = inr (rw (e, q, equal_self path) now);
}
step-Tame tmp path bytes (remove t) ops d other rehto (e, h) = record {
  tame = rw (e, equal_self tmp) h;
  others = λ name a b. rw (e, a) refl;
  path_whole = inl (rw (e, other) refl);
}
step-Tame tmp path bytes (chmod t) ops d other rehto h = record {
  tame = h;
  others = λ name a b. refl;
  path_whole = inl refl;
}
step-Tame tmp path bytes (sync t) ops d other rehto h = record {
  tame = h;
  others = λ name a b. refl;
  path_whole = inl refl;
}
step-Tame tmp path bytes (close t) ops d other rehto h = record {
  tame = h;
  others = λ name a b. refl;
  path_whole = inl refl;
}

pub fill-Tame :
    (f : Faults) (tmp path bytes : Text) (now : Option Text)
    → Tame tmp path bytes now
        (create tmp ∷ ((fill f tmp path bytes).0 ++ close tmp ∷ remove tmp ∷ []))
unfolding fill
fill-Tame f tmp path bytes now = ground arith

pub equal_sym : (a b : Text) → equal a b ≡ false → equal b a ≡ false
equal_sym a b h = elim (Bool-cases (equal b a)) [
  | inl e ↦ cc (h, (equal_iff a b).1 (sym ((equal_iff b a).0 e)))
  | inr e ↦ e
]

pub temporary_inj : (a b : Text) → temporary a ≡ temporary b → a ≡ b
temporary_inj a b h = cc
