-- ===== src/Compiler/Ownership/Each.antt =====
-- A predicate on the variables of all scopes of compiler/ownership.py, and what keeps it.
use poodillion.Prelude.{
  String, ◌≡◌, refl, subst, some, List, [], ◌∷◌, ◌==◌, string_eq, arith, Bool-cases, Option-cases,
  inl, inr,
}
use poodillion.Prelude.Dict.{Dict, lookup, insert}
use poodillion.Compiler.Ownership.Scope.{OwnershipInfo, Scopes, find, change}

-- Every element of a list, every variable of a scope, and every variable of every scope.
abbrev pub Each {ℓ} : {A : Type ℓ} → (A → Type 0) → List A → Type 0
Each Q [] = Unit
Each Q (x ∷ xs) = Q x × Each Q xs

abbrev pub EachIn : (OwnershipInfo → Type 0) → Dict String OwnershipInfo → Type 0
EachIn P d = Each (λ (e : String × OwnershipInfo). P e.1) d

module _ (P : OwnershipInfo → Type 0) where
  pub insert-EachIn :
      (name : String) (i : OwnershipInfo) (d : Dict String OwnershipInfo)
      → P i
      → EachIn P d
      → EachIn P (insert name i d)
  unfolding insert
  insert-EachIn name i [] p h = (p, tt)
  insert-EachIn name i ((k, j) ∷ d) p (q, h) = elim (Bool-cases (name == k)) [
    | inl e ↦ rw e (p, h)
    | inr e ↦ rw e (q, insert-EachIn name i d p h)
  ]

  lookup-EachIn :
      (name : String) (i : OwnershipInfo) (d : Dict String OwnershipInfo)
      → EachIn P d
      → lookup name d ≡ some i
      → P i
  unfolding lookup
  lookup-EachIn name i [] h e = cc
  lookup-EachIn name i ((k, j) ∷ d) (q, h) e = elim (Bool-cases (name == k)) [
    | inl f ↦ let same : j ≡ i = ground arith in subst P same q
    | inr f ↦ lookup-EachIn name i d h (rw f at e)
  ]

  pub find-Each :
      (name : String) (i : OwnershipInfo) (s : Scopes)
      → Each (EachIn P) s
      → find name s ≡ some i
      → P i
  unfolding find
  find-Each name i [] h e = cc
  find-Each name i (d ∷ s) (q, h) e = elim (Option-cases (lookup name d)) [
    | inl f ↦ find-Each name i s h (rw (f, find) at e)
    | inr (j, f) ↦
        let same : j ≡ i = ground arith in
        lookup-EachIn name i d q (subst (λ k. lookup name d ≡ some k) same f)
  ]

  pub change-Each :
      (name : String) (f : OwnershipInfo → OwnershipInfo) (s : Scopes)
      → Each (EachIn P) s
      → ((i : OwnershipInfo) → find name s ≡ some i → P (f i))
      → Each (EachIn P) (change name f s)
  unfolding change find
  change-Each name f [] h g = tt
  change-Each name f (d ∷ s) (q, h) g = elim (Option-cases (lookup name d)) [
    | inl e ↦ rw (e, change) (q, change-Each name f s h (λ i k. g i (rw (e, find) k)))
    | inr (j, e) ↦ rw (e, change) (insert-EachIn name (f j) d (g j (rw (e, find) refl)) q, h)
  ]
