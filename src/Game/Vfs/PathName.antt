-- ===== src/Game/Vfs/PathName.antt =====
-- The string methods by which game/core/vfs.py takes paths apart.
use poodillion.Prelude.{
  ℕ, Bool, true, false, not, ◌&&◌, List, [], ◌∷◌, ◌++◌, ◌==◌, nat_eq, text_eq, keep, if◌then◌else◌,
}
use poodillion.Game.Vfs.Inode.{Text}

abbrev pub slash : ℕ
slash = b'/'

abbrev pub dot : Text
dot = b'.' ∷ []

abbrev pub dot_dot : Text
dot_dot = b'.' ∷ b'.' ∷ []

abbrev pub is_empty {ℓ} : {A : Type ℓ} → List A → Bool
is_empty [] = true
is_empty (x ∷ xs) = false

-- A character goes to the front of the first piece; `split` never returns the empty list.
abbrev pub onto_first : ℕ → List Text → List Text
onto_first c [] = (c ∷ []) ∷ []
onto_first c (p ∷ ps) = (c ∷ p) ∷ ps

-- s.split('/')
unfoldable pub split : Text → List Text
split [] = [] ∷ []
split (c ∷ s) = let rest = split s in if c == slash then [] ∷ rest else onto_first c rest

-- '/'.join(ps)
unfoldable pub join : List Text → Text
join [] = []
join (p ∷ []) = p
join (p ∷ q ∷ ps) = p ++ (slash ∷ join (q ∷ ps))

-- s.rstrip('/')
unfoldable pub rstrip : Text → Text
rstrip [] = []
rstrip (c ∷ s) = let rest = rstrip s in if c == slash && is_empty rest then [] else c ∷ rest

-- ps[:-1]
unfoldable pub but_last : List Text → List Text
but_last [] = []
but_last (p ∷ []) = []
but_last (p ∷ q ∷ ps) = p ∷ but_last (q ∷ ps)

-- ps[-1]
unfoldable pub last_of : List Text → Text
last_of [] = []
last_of (p ∷ []) = p
last_of (p ∷ q ∷ ps) = last_of (q ∷ ps)

-- '/'.join(path.rstrip('/').split('/')[:-1]) or '/'
unfoldable pub parent_path : Text → Text
unfolding split join rstrip but_last
parent_path path =
    let s = join (but_last (split (rstrip path))) in if is_empty s then slash ∷ [] else s

-- path.rstrip('/').split('/')[-1]
unfoldable pub base_name : Text → Text
unfolding split rstrip last_of
base_name path = last_of (split (rstrip path))

-- [p for p in path.split('/') if p and p != '.']
unfoldable pub parts : Text → List Text
unfolding split
parts path = keep (λ p. not (is_empty p) && not (p == dot)) (split path)
