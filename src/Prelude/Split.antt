-- ===== src/Prelude/Split.antt =====
-- Python's s.split(c) and c.join(ps), for a separator of one character, and s.startswith(t).
use Prim.Native.Nat.{ℕ}
use mathlib.Core.Path.{◌≡◌, refl}
use mathlib.Core.Bool.{Bool, true, false, ◌&&◌}
use mathlib.Core.List.{List, [], ◌∷◌, ◌++◌}
use poodillion.Prelude.Tests.{if◌then◌else◌, ◌==◌, nat_eq, ==_iff}
use poodillion.Prelude.Lists.{Text}

-- A character goes to the front of the first piece.
onto_first : ℕ → List Text → List Text
onto_first c [] = (c ∷ []) ∷ []
onto_first c (p ∷ ps) = (c ∷ p) ∷ ps

unfoldable pub split_on : ℕ → Text → List Text
unfolding onto_first
split_on sep [] = [] ∷ []
split_on sep (c ∷ s) =
    let rest = split_on sep s in if c == sep then [] ∷ rest else onto_first c rest

unfoldable pub join_with : ℕ → List Text → Text
join_with sep [] = []
join_with sep (p ∷ []) = p
join_with sep (p ∷ q ∷ ps) = p ++ (sep ∷ join_with sep (q ∷ ps))

unfoldable pub starts_with : Text → Text → Bool
starts_with s [] = true
starts_with [] (c ∷ t) = false
starts_with (b ∷ s) (c ∷ t) = b == c && starts_with s t

-- A text in which a character does not occur.
abbrev pub Without : ℕ → Text → Type 0
Without sep [] = Unit {0}
Without sep (c ∷ s) = ((c == sep) ≡ false) × Without sep s

pub split_on-Without : (sep : ℕ) (p : Text) → Without sep p → split_on sep p ≡ p ∷ []
unfolding split_on
split_on-Without sep [] h = refl
split_on-Without sep (c ∷ s) h = rw (h.0, split_on-Without sep s h.1) refl

pub split_on-append :
    (sep : ℕ) (p s : Text) → Without sep p → split_on sep (p ++ sep ∷ s) ≡ p ∷ split_on sep s
unfolding split_on
split_on-append sep [] s h = rw ((==_iff sep sep).1 refl) refl
split_on-append sep (c ∷ p) s h = rw (h.0, split_on-append sep p s h.1) refl

pub starts_with-append : (s t : Text) → starts_with (s ++ t) s ≡ true
unfolding starts_with
starts_with-append [] t = refl
starts_with-append (c ∷ s) t = rw ((==_iff c c).1 refl) (starts_with-append s t)
