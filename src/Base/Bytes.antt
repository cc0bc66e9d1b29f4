-- ===== src/Base/Bytes.antt =====
-- Go strings as lists of bytes, with the functions of package strings that the source calls.
use mixi.Base.{◌/◌, ◌+◌, ◌%◌, ltb}
use Prim.Native.Nat.{zero, ℕ, suc}
use Prim.Native.Char.{code}
use Prim.Native.String.{String}
use mathlib.Core.Path.{◌≡◌, refl}
use mathlib.Core.Logic.{◌↔◌}
use mathlib.Core.Bool.{Bool, true, false, ◌&&◌, ◌||◌}
use mathlib.Core.List.{List, [], ◌∷◌, ◌++◌}
use mathlib.Core.Option.{Option, none, some}
use native.Mathlib.Omega.{arith}
use mixi.Base.Tests.{◌==◌, if◌then◌else◌}
use mixi.Base.Lists.{drop, length}

abbrev pub Bytes : Type 0
Bytes = List ℕ

-- The bytes of an ASCII text.
abbrev pub codes : String → Bytes
codes String.[] = []
codes (String.◌∷◌ c s) = code c ∷ codes s

-- s == t
unfoldable pub bytes_eq : Bytes → Bytes → Bool
bytes_eq [] [] = true
bytes_eq [] (d ∷ t) = false
bytes_eq (c ∷ s) [] = false
bytes_eq (c ∷ s) (d ∷ t) = c == d && bytes_eq s t

-- strings.HasPrefix(s, p)
unfoldable pub has_prefix : Bytes → Bytes → Bool
has_prefix s [] = true
has_prefix [] (d ∷ p) = false
has_prefix (c ∷ s) (d ∷ p) = c == d && has_prefix s p

-- strings.HasSuffix(s, p)
unfoldable pub has_suffix : Bytes → Bytes → Bool
unfolding bytes_eq
has_suffix [] p = bytes_eq [] p
has_suffix (c ∷ s) p = bytes_eq (c ∷ s) p || has_suffix s p

-- strings.Index(s, p): the first position, `none` for -1
unfoldable pub index : Bytes → Bytes → Option ℕ
unfolding has_prefix
index [] p = if has_prefix [] p then some 0 else none
index (c ∷ s) p =
    let rest = index s p in
    if has_prefix (c ∷ s) p then some 0 else elim rest [ none ↦ none | some i ↦ some (suc i) ]

-- strings.Contains(s, p)
unfoldable pub contains : Bytes → Bytes → Bool
unfolding index
contains s p = elim (index s p) [ none ↦ false | some i ↦ true ]

pub bytes_eq_refl : (s : Bytes) → bytes_eq s s ≡ true
unfolding bytes_eq
bytes_eq_refl [] = refl
bytes_eq_refl (c ∷ s) = ground (arith, bytes_eq_refl s)

pub eq_of_bytes_eq : (s t : Bytes) → bytes_eq s t ≡ true → s ≡ t
unfolding bytes_eq
eq_of_bytes_eq [] [] h = refl
eq_of_bytes_eq [] (d ∷ t) h = cc
eq_of_bytes_eq (c ∷ s) [] h = cc
eq_of_bytes_eq (c ∷ s) (d ∷ t) h = ground (arith, eq_of_bytes_eq s t)

pub bytes_eq_iff : (s t : Bytes) → (bytes_eq s t ≡ true) ↔ (s ≡ t)
bytes_eq_iff s t = (eq_of_bytes_eq s t, λ e. subst_eq e)
  where
    subst_eq : s ≡ t → bytes_eq s t ≡ true
    subst_eq e = rw (← e) (bytes_eq_refl s)

pub has_prefix-append : (p s : Bytes) → has_prefix (p ++ s) p ≡ true
unfolding has_prefix
has_prefix-append [] [] = refl
has_prefix-append [] (c ∷ s) = refl
has_prefix-append (c ∷ p) s = ground (arith, has_prefix-append p s)

-- A text with prefix `p` is `p` and what follows it.
pub append-of_has_prefix : (s p : Bytes) → has_prefix s p ≡ true → s ≡ p ++ drop (length p) s
unfolding has_prefix
append-of_has_prefix s [] h = refl
append-of_has_prefix [] (d ∷ p) h = cc
append-of_has_prefix (c ∷ s) (d ∷ p) h = ground (arith, append-of_has_prefix s p)

-- puts a byte before the first part
unfoldable pub cons_head : ℕ → List Bytes → List Bytes
cons_head c [] = (c ∷ []) ∷ []
cons_head c (p ∷ ps) = (c ∷ p) ∷ ps

-- strings.Split(s, sep) for a separator of one byte: one part more than there are separators
unfoldable pub split : ℕ → Bytes → List Bytes
unfolding cons_head
split sep [] = [] ∷ []
split sep (c ∷ s) = let rest = split sep s in if c == sep then [] ∷ rest else cons_head c rest

-- strings.Join(parts, sep) for a separator of one byte
unfoldable pub join : ℕ → List Bytes → Bytes
join sep [] = []
join sep (p ∷ []) = p
join sep (p ∷ q ∷ ps) = p ++ (sep ∷ join sep (q ∷ ps))

-- %d: the digits of a number, whose own value is fuel enough for its length
unfoldable pub digits_onto : ℕ → ℕ → Bytes → Bytes
digits_onto zero n acc = acc
digits_onto (suc fuel) n acc =
    let rest = digits_onto fuel (n / 10) ((n % 10 + 48) ∷ acc) in
    if ltb n 10 then (n + 48) ∷ acc else rest

unfoldable pub decimal : ℕ → Bytes
decimal n = digits_onto (n + 1) n []
