-- ===== src/Base/Texts.antt =====
-- Texts as Go's strings package cuts and joins them at commas.
use tacacs_plus_go.Base.Lists.{All}
use Prim.Native.Nat.{ℕ}
use mathlib.Core.Bool.{Bool, true, false, ◌&&◌}
use mathlib.Core.List.{List, [], ◌∷◌, ◌++◌, append-nil, append_assoc}
use mathlib.Core.Logic.{◌≢◌, inl, inr}
use mathlib.Core.Path.{◌≡◌, refl, sym, subst, ap, ◌∙◌}
use native.Mathlib.Omega.{arith}
use tacacs_plus_go.Base.Tests.{◌==◌, eq_cases}

-- strings.HasPrefix, with the prefix first
unfoldable pub has_prefix : List ℕ → List ℕ → Bool
has_prefix [] s = true
has_prefix (p ∷ prefix) [] = false
has_prefix (p ∷ prefix) (c ∷ s) = (p == c) && has_prefix prefix s

-- strings.Split(s, ","): the text up to the first comma, and the others
unfoldable pub split_from : List ℕ → List ℕ → List (List ℕ)
split_from part [] = part ∷ []
split_from part (c ∷ s) = elim (c == 44) [
  | true ↦ part ∷ split_from [] s
  | false ↦ split_from (part ++ (c ∷ [])) s
]

-- strings.Join(roles, ",")
unfoldable pub join : List (List ℕ) → List ℕ
join [] = []
join (role ∷ []) = role
join (role ∷ next ∷ roles) = role ++ (44 ∷ join (next ∷ roles))

-- A text without a comma.
abbrev pub NoComma : List ℕ → Type 0
NoComma = All (λ c. c ≢ 44)

split_from-other :
    (part : List ℕ) (c : ℕ) (s : List ℕ)
    → c ≢ 44
    → split_from part (c ∷ s) ≡ split_from (part ++ (c ∷ [])) s
unfolding split_from
split_from-other part c s n = ground (arith, n)

split_from-cut :
    (part : List ℕ) (c : ℕ) (s : List ℕ) → c ≡ 44 → split_from part (c ∷ s) ≡ part ∷ split_from [] s
unfolding split_from
split_from-cut part c s e = ground (arith, e)

pub split_from-comma :
    (part s rest : List ℕ)
    → NoComma s
    → split_from part (s ++ (44 ∷ rest)) ≡ (part ++ s) ∷ split_from [] rest
unfolding split_from
split_from-comma part [] rest a = ap (λ x. x ∷ split_from [] rest) (sym (append-nil part))
split_from-comma part (c ∷ s) rest a =
    split_from-other part c (s ++ (44 ∷ rest)) a.0
    ∙ split_from-comma (part ++ (c ∷ [])) s rest a.1
    ∙ ap (λ x. x ∷ split_from [] rest) (append_assoc part (c ∷ []) s)

pub split_from-last : (part s : List ℕ) → NoComma s → split_from part s ≡ (part ++ s) ∷ []
unfolding split_from
split_from-last part [] a = ap (λ x. x ∷ []) (sym (append-nil part))
split_from-last part (c ∷ s) a =
    split_from-other part c s a.0
    ∙ split_from-last (part ++ (c ∷ [])) s a.1
    ∙ ap (λ x. x ∷ []) (append_assoc part (c ∷ []) s)

NoComma-snoc : (part : List ℕ) (c : ℕ) → NoComma part → c ≢ 44 → NoComma (part ++ (c ∷ []))
NoComma-snoc [] c a n = (n, tt)
NoComma-snoc (p ∷ part) c a n = (a.0, NoComma-snoc part c a.1 n)

-- What strings.Split gives has no comma, and strings.Join undoes it.
pub split_from-NoComma : (part s : List ℕ) → NoComma part → All NoComma (split_from part s)
unfolding split_from
split_from-NoComma part [] a = (a, tt)
split_from-NoComma part (c ∷ s) a = elim (eq_cases c 44) [
  | inl e ↦ subst (All NoComma) (sym (split_from-cut part c s e)) (a, split_from-NoComma [] s tt)
  | inr n ↦
      subst (All NoComma) (sym (split_from-other part c s n))
        (split_from-NoComma (part ++ (c ∷ [])) s (NoComma-snoc part c a n))
]

pub split_from-join : (xs : List (List ℕ)) → xs ≢ [] → All NoComma xs → split_from [] (join xs) ≡ xs
unfolding join
split_from-join [] n a = absurd (n refl)
split_from-join (x ∷ []) n a = split_from-last [] x a.0
split_from-join (x ∷ y ∷ xs) n a =
    split_from-comma [] x (join (y ∷ xs)) a.0
    ∙ ap (λ ys. x ∷ ys) (split_from-join (y ∷ xs) (λ e. cc e) a.1)
