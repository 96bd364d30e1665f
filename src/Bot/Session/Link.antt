-- ===== src/Bot/Session/Link.antt =====
-- What the connection of a session and its callback see of the actions of the session, and of the
-- close by `context.AfterFunc` among them.
use minecraft_afk_bot.Bot.Session.{
  Action, log, dial, do_spawn, spawned, write, watch, cut, unwatch, close,
}
use minecraft_afk_bot.Prelude.{
  Bool, true, false, not, ◌&&◌, ◌||◌, List, [], ◌∷◌, ◌++◌, ◌≡◌, refl, arith, ap, ◌∙◌,
}

-- What the connection and the callback have seen after some actions.
pub record Link : Type 0 where
  -- a connection was opened, and the session has not closed it
  pub is_open : Bool
  -- `context.AfterFunc` will close it when the context ends
  pub is_watched : Bool
  pub announced : Bool
  -- every action came in its place: the callback and each write on a connection that the session has
  -- not closed, the callback at most once and before any write, each of the calls of `AfterFunc`,
  -- `stop` and `Close` once, in this order, and a close by `AfterFunc` before that of the session
  pub in_order : Bool
  -- `context.AfterFunc` has closed it
  pub is_cut : Bool

module _ {Position : Type 0} where
  abbrev pub observe : Link → Action Position → Link
  observe l (log s e f) = l
  observe l (dial id ok) = record l { is_open = ok; in_order = l.in_order && not l.is_open }
  observe l do_spawn = record l { in_order = l.in_order && l.is_open }
  observe l spawned = record l {
    announced = true;
    in_order = l.in_order && l.is_open && not l.announced;
  }
  observe l (write pk) = record l { in_order = l.in_order && l.is_open && l.announced }
  observe l watch = record l {
    is_watched = true;
    in_order = l.in_order && l.is_open && not l.is_watched;
  }
  observe l cut = record l {
    is_cut = l.is_cut || l.is_watched;
    in_order = l.in_order && (not l.is_watched || l.is_open);
  }
  observe l unwatch = record l { is_watched = false; in_order = l.in_order && l.is_watched }
  observe l close = record l {
    is_open = false;
    in_order = l.in_order && l.is_open && not l.is_watched;
  }

  abbrev pub observe_all : Link → List (Action Position) → Link
  observe_all l [] = l
  observe_all l (a ∷ actions) = observe_all (observe l a) actions

  pub observe_all-append :
      (l : Link) (xs ys : List (Action Position))
      → observe_all l (xs ++ ys) ≡ observe_all (observe_all l xs) ys
  observe_all-append l [] ys = refl
  observe_all-append l (x ∷ xs) ys = observe_all-append (observe l x) xs ys

-- All in order, and watched while it is open.
abbrev pub link_of : Bool → Bool → Link
link_of is_open announced = record {
  is_open = is_open;
  is_watched = is_open;
  announced = announced;
  in_order = true;
  is_cut = false;
}

abbrev pub down : Link
down = link_of false false

abbrev pub up : Bool → Link
up announced = link_of true announced

-- In order, only an open connection is watched.
abbrev pub IsFit : Link → Type 0
IsFit l = l.in_order ≡ true → l.is_watched ≡ true → l.is_open ≡ true

-- The close by `AfterFunc` is remembered, and changes nothing else.
abbrev pub with_cut : Bool → Link → Link
with_cut b l = record l { is_cut = l.is_cut || b }

module _ {Position : Type 0} where
  observe-IsFit : (l : Link) (a : Action Position) → IsFit l → IsFit (observe l a)
  observe-IsFit l (log s e f) h p q = h p q
  observe-IsFit l (dial id ok) h p q = ground arith
  observe-IsFit l do_spawn h p q = ground arith
  observe-IsFit l spawned h p q = ground arith
  observe-IsFit l (write pk) h p q = ground arith
  observe-IsFit l watch h p q = ground arith
  observe-IsFit l cut h p q = ground arith
  observe-IsFit l unwatch h p q = ground arith
  observe-IsFit l close h p q = ground arith

  pub observe_all-IsFit :
      (l : Link) (actions : List (Action Position)) → IsFit l → IsFit (observe_all l actions)
  observe_all-IsFit l [] h = h
  observe_all-IsFit l (a ∷ actions) h =
      observe_all-IsFit (observe l a) actions (observe-IsFit l a h)

  observe-with_cut :
      (b : Bool) (l : Link) (a : Action Position)
      → observe (with_cut b l) a ≡ with_cut b (observe l a)
  observe-with_cut b l cut =
      ap (λ c. record l { is_cut = c; in_order = l.in_order && (not l.is_watched || l.is_open) })
        (or_swap l.is_cut b l.is_watched)
    where
      or_swap : (x y z : Bool) → ((x || y) || z) ≡ ((x || z) || y)
      or_swap x y z = ground arith
  observe-with_cut b l _ = refl

  pub observe_all-with_cut :
      (b : Bool) (l : Link) (actions : List (Action Position))
      → observe_all (with_cut b l) actions ≡ with_cut b (observe_all l actions)
  observe_all-with_cut b l [] = refl
  observe_all-with_cut b l (a ∷ actions) =
      ap (λ l'. observe_all l' actions) (observe-with_cut b l a)
      ∙ observe_all-with_cut b (observe l a) actions

pub cut-link :
    (Position : Type 0) (l : Link)
    → IsFit l
    → observe {Position = Position} l cut ≡ with_cut l.is_watched l
cut-link Position l h = ap (λ b. record l { is_cut = l.is_cut || l.is_watched; in_order = b }) kept
  where
    kept : (l.in_order && (not l.is_watched || l.is_open)) ≡ l.in_order
    kept = ground arith
