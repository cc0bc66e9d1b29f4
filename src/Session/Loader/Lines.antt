-- ===== src/Session/Loader/Lines.antt =====
-- internal/session/loader.go: a file cut into lines, and a line trimmed.
use mixi.Base.{◌≡◌, refl, false, [], ◌∷◌, ◌++◌, ◌==◌, any}
use mixi.Base.Bytes.{Bytes}
use mixi.Base.Lines.{newline}
use mixi.Session.Loader.{trim_left, trim_right, trim_space, trim_end}

-- A JSON object on one line, as json.Marshal prints it.
pub record IsObject (l : Bytes) : Type 0 where
  pub inner : Bytes
  pub braces : l ≡ 123 ∷ inner ++ 125 ∷ []
  pub one_line : any (λ c. c == newline) l ≡ false

trim_right_brace : (m : Bytes) → trim_right ((m ++ 125 ∷ []) ++ newline ∷ []) ≡ m ++ 125 ∷ []
unfolding trim_right
trim_right_brace [] = refl
trim_right_brace (c ∷ m) = rw (trim_right_brace m) (some_after m)
  where
    some_after : (m : Bytes) → trim_end c (m ++ 125 ∷ []) ≡ c ∷ m ++ 125 ∷ []
    some_after [] = refl
    some_after (d ∷ m) = refl

-- a printed object keeps all but its newline
pub trim_space_object : (l : Bytes) → IsObject l → trim_space (l ++ newline ∷ []) ≡ l
unfolding trim_left
trim_space_object l o = rw o.braces (trim_right_brace (123 ∷ o.inner))
