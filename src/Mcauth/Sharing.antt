-- ===== src/Mcauth/Sharing.antt =====
-- Processes that share one cache directory: each runs a save of its own, and their steps interleave in
-- any order.
use minecraft_afk_bot.Mcauth.Names.{token_file_name-temporary}
use minecraft_afk_bot.Mcauth.Temporary.{Tame, step-Tame, fill-Tame, equal_sym, temporary_inj}
use minecraft_afk_bot.Mcauth.{
  ok, token_file_name, Disk, Op, apply, Created, created, not_created, Faults, temporary,
  save_created, Encoded, encoded, not_encoded, Codec, save_encoded, save_token,
}
use minecraft_afk_bot.Prelude.{
  Text, ℕ, ◌≡◌, ◌⊎◌, inl, inr, refl, sym, ◌∙◌, ap, subst, false, List, [], ◌∷◌, Option, some, equal,
  equal_iff, ◌==◌, ==_iff, Bool-cases, if◌then◌else◌,
}

-- What is left of each process's save, and the directory that they share.
pub record Shared : Type 0 where
  pub pending : ℕ → List Op
  pub disk : Disk

abbrev pub with_pending : (ℕ → List Op) → ℕ → List Op → ℕ → List Op
with_pending pending i ops j = if i == j then ops else pending j

-- The next step of process `i`, if it has one.
abbrev pub advance : ℕ → List Op → Shared → Shared
advance i [] s = s
advance i (op ∷ ops) s = record { pending = with_pending s.pending i ops; disk = apply op s.disk }

-- The processes in the order in which the system lets them step.
abbrev pub run_all : List ℕ → Shared → Shared
run_all [] s = s
run_all (i ∷ schedule) s = run_all schedule (advance i (s.pending i) s)

module _ (path : Text) where
  -- What is left of a save, by how its `os.CreateTemp` and its encoding end.
  Ready : Created → Encoded → Disk → List Op → Type 0
  Ready (created star) (encoded bytes) d ops =
      Tame (temporary star) path bytes (d (temporary star)) ops
  Ready (created star) (not_encoded e) d ops = ops ≡ []
  Ready (not_created e) x d ops = ops ≡ []

  Ready-nil : (made : Created) (e : Text) (d : Disk) → Ready made (not_encoded e) d []
  unfolding Ready
  Ready-nil (created star) e d = refl
  Ready-nil (not_created f) e d = refl

  save_created-Ready :
      (f : Faults) (bytes : Text) (made : Created) (d : Disk)
      → Ready made (encoded bytes) d (save_created f path bytes made).0
  unfolding Ready save_created
  save_created-Ready f bytes (created star) d =
      fill-Tame f (temporary star) path bytes (d (temporary star))
  save_created-Ready f bytes (not_created e) d = refl

  save_encoded-Ready :
      (f : Faults) (x : Encoded) (d : Disk) → Ready f.create x d (save_encoded f path x).0
  save_encoded-Ready f (encoded bytes) d = save_created-Ready f bytes f.create d
  save_encoded-Ready f (not_encoded e) d = Ready-nil f.create e d

  Ready-other :
      (made : Created) (x : Encoded) (d d' : Disk) (ops : List Op)
      → ((star : Text) → made ≡ created star → d' (temporary star) ≡ d (temporary star))
      → Ready made x d ops
      → Ready made x d' ops
  unfolding Ready
  Ready-other (created star) (encoded bytes) d d' ops same h =
      subst (λ now. Tame (temporary star) path bytes now ops) (sym (same star refl)) h
  Ready-other (created star) (not_encoded e) d d' ops same h = h
  Ready-other (not_created e) x d d' ops same h = h

-- What was there, or all of one process's token.
abbrev pub HoldsOne : (ℕ → Encoded) → Option Text → Option Text → Type 0
HoldsOne encodings old now =
    (now ≡ old) ⊎ ((i : ℕ) × (bytes : Text) × (encodings i ≡ encoded bytes) × (now ≡ some bytes))

module _ (path : Text) (old : Option Text) (made : ℕ → Created) (encodings : ℕ → Encoded)
    (apart : (star : Text) → equal path (temporary star) ≡ false)
    (distinct : (i j : ℕ) (star : Text)
      → made i ≡ created star
      → made j ≡ created star
      → i ≡ j) where
  record Inv (s : Shared) : Type 0 where
    pub ready : (i : ℕ) → Ready path (made i) (encodings i) s.disk (s.pending i)
    pub holds : HoldsOne encodings old (s.disk path)

  -- Two processes have two temporary files.
  other_temporary :
      (i j : ℕ) (star star' : Text)
      → made i ≡ created star
      → made j ≡ created star'
      → (i == j) ≡ false
      → equal (temporary star') (temporary star) ≡ false
  other_temporary i j star star' hi hj ne =
      elim (Bool-cases (equal (temporary star') (temporary star))) [
        | inl e ↦
            let same = temporary_inj star' star ((equal_iff _ _).0 e) in
            let one = distinct i j star hi (hj ∙ ap created same) in cc (ne, (==_iff i j).1 one)
        | inr e ↦ e
      ]

  step-Inv :
      (i : ℕ) (op : Op) (ops : List Op) (s : Shared) (m : Created) (x : Encoded)
      → made i ≡ m
      → encodings i ≡ x
      → Inv s
      → Ready path m x s.disk (op ∷ ops)
      → Inv (advance i (op ∷ ops) s)
  unfolding Ready
  step-Inv i op ops s (not_created e) x hm hx h r = cc
  step-Inv i op ops s (created star) (not_encoded e) hm hx h r = cc
  step-Inv i op ops s (created star) (encoded bytes) hm hx h r =
      let st =
        step-Tame (temporary star) path bytes op ops s.disk (apart star)
          (equal_sym _ _ (apart star)) r in
      record {
        ready = λ j. elim (Bool-cases (i == j)) [
          | inl e ↦ rw e (
              subst (λ k. Ready path (made k) (encodings k) (apply op s.disk) ops)
                ((==_iff i j).0 e) (rw (hm, hx) st.tame))
          | inr e ↦ rw e (
              Ready-other path (made j) (encodings j) s.disk (apply op s.disk) (s.pending j)
                (λ star' hj.
                  st.others (temporary star') (other_temporary i j star star' hm hj e)
                    (equal_sym _ _ (apart star')))
                (h.ready j))
        ];
        holds = elim st.path_whole [
          | inl same ↦ subst (HoldsOne encodings old) (sym same) h.holds
          | inr new ↦ inr (i, bytes, hx, new)
        ];
      }

  advance-Inv :
      (i : ℕ) (ops : List Op) (s : Shared) → s.pending i ≡ ops → Inv s → Inv (advance i ops s)
  advance-Inv i [] s e h = h
  advance-Inv i (op ∷ ops) s e h =
      step-Inv i op ops s (made i) (encodings i) refl refl h (rw e at (h.ready i))

  run_all-Inv : (schedule : List ℕ) (s : Shared) → Inv s → Inv (run_all schedule s)
  run_all-Inv [] s h = h
  run_all-Inv (i ∷ schedule) s h =
      run_all-Inv schedule (advance i (s.pending i) s) (advance-Inv i (s.pending i) s refl h)

-- All processes at the start of their saves.
abbrev pub saving :
    {Token : Type 0} → Codec Token → (ℕ → Faults) → Text → (ℕ → Token) → Disk → Shared
saving c faults path tokens d = record {
  pending = λ i. (save_token c (faults i) path (tokens i)).0;
  disk = d;
}

-- However many processes save tokens for one account at a time, in whatever order their steps fall
-- and whichever of their calls fail, at each moment the account's file holds what it held before or
-- all of one process's token, if no two of them are given one temporary file.
pub saving-HoldsOne :
    (Token : Type 0) (c : Codec Token) (digest : Text → Text) (username path : Text)
    (faults : ℕ → Faults) (tokens : ℕ → Token) (d : Disk) (schedule : List ℕ)
    → token_file_name digest username ≡ ok path
    → ((i j : ℕ) (star : Text)
        → (faults i).create ≡ created star
        → (faults j).create ≡ created star
        → i ≡ j)
    → HoldsOne
        (λ i. c.marshal (tokens i))
        (d path)
        ((run_all schedule (saving c faults path tokens d)).disk path)
unfolding save_token
saving-HoldsOne Token c digest username path faults tokens d schedule named distinct =
    let apart = λ (star : Text). token_file_name-temporary digest username path star named in
    let encodings = λ (i : ℕ). c.marshal (tokens i) in
    let made = λ (i : ℕ). (faults i).create in
    (run_all-Inv path (d path) made encodings apart distinct schedule
      (saving c faults path tokens d)
      (record {
        ready = λ i. save_encoded-Ready path (faults i) (c.marshal (tokens i)) d;
        holds = inl refl;
      })).holds
