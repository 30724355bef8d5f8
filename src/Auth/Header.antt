-- ===== src/Auth/Header.antt =====
-- strings.SplitN(authHeader, " ", 2) of cmd/auth-service/main.go.
use Prim.Native.Char.{Char, code}
use Prim.Native.String.{◌++◌ as concat}
use text.Mathlib.TextLemmas.{cons-append, nil-append}
use text.Mathlib.TextEquality.{Char-path}
use realtime_order_inventory.Prelude.{
  ℕ, ◌≡◌, sym, ◌∙◌, ap, String, Bool, true, false, ◌&&◌, inl, inr, Bool-cases, Option, none, some,
  leb, if◌then◌else◌, arith,
}

abbrev is_space : ℕ → Bool
is_space c = leb c 32 && leb 32 c

unfoldable pub prepend : Char → Option (String × String) → Option (String × String)
prepend c none = none
prepend c (some (a, b)) = some (String.◌∷◌ c a, b)

-- The text before the first space and the one after it.
unfoldable pub cut : String → Option (String × String)
unfolding prepend
cut String.[] = none
cut (String.◌∷◌ c s) =
    let rest = cut s in if is_space (code c) then some ("", s) else prepend c rest

abbrev pub HasNoSpace : String → Type 0
HasNoSpace String.[] = Unit {0}
HasNoSpace (String.◌∷◌ c s) = (is_space (code c) ≡ false) × HasNoSpace s

cons_space : (b : String) → concat " " b ≡ String.◌∷◌ " " b
cons_space b = cons-append " " "" b ∙ ap (λ t. String.◌∷◌ " " t) (nil-append b)

-- What has no space before a space is found.
pub cut-join : (a b : String) → HasNoSpace a → cut (concat a (concat " " b)) ≡ some (a, b)
unfolding cut
cut-join String.[] b h = ap cut (nil-append (concat " " b) ∙ cons_space b)
cut-join (String.◌∷◌ c s) b h =
    let rest = cut-join s b h.1 in ap cut (cons-append c s (concat " " b)) ∙ rw (h.0, rest)

space_path : (c : Char) → is_space (code c) ≡ true → String.◌∷◌ c "" ≡ " "
space_path c h = ap (λ d. String.◌∷◌ d "") (Char-path c _ (ground arith))

prepend-some :
    (c : Char) (rest : Option (String × String)) (a b : String)
    → prepend c rest ≡ some (a, b)
    → (a' : String) × ((a ≡ String.◌∷◌ c a') × (rest ≡ some (a', b)))
unfolding prepend
prepend-some c none a b e = cc
prepend-some c (some (a', b')) a b e = (a', (cc, cc))

after_space :
    (c : Char) (s : String) → is_space (code c) ≡ true → String.◌∷◌ c s ≡ concat "" (concat " " s)
after_space c s h =
    ap (λ t. String.◌∷◌ c t) (sym (nil-append s))
    ∙ sym (cons-append c "" s)
    ∙ ap (λ t. concat t s) (space_path c h)
    ∙ sym (nil-append (concat " " s))

-- What is found stands around the first space.
pub join-cut : (h a b : String) → cut h ≡ some (a, b) → h ≡ concat a (concat " " b)
unfolding cut
join-cut String.[] a b e = cc
join-cut (String.◌∷◌ c s) a b e = elim (Bool-cases (is_space (code c))) [
  | inl space ↦
      let found : Path (Option (String × String)) (some ("", s)) (some (a, b)) = rw space at e in
      let front : "" ≡ a = cc in
      let back : s ≡ b = cc in
      after_space c s space
      ∙ ap (λ t. concat t (concat " " s)) front
      ∙ ap (λ t. concat a (concat " " t)) back
  | inr other ↦
      let found : prepend c (cut s) ≡ some (a, b) = rw other at e in
      let (a', (e', k)) = prepend-some c (cut s) a b found in
      ap (λ t. String.◌∷◌ c t) (join-cut s a' b k)
      ∙ sym (cons-append c a' (concat " " b))
      ∙ ap (λ t. concat t (concat " " b)) (sym e')
]
