-- ===== src/Tools/Edits/Match.antt =====
-- internal/tools/editmatch.go: where the old texts of the edits stand.
pub mod Found
use mixi.Base.{
  ℕ, zero, suc, ◌+◌, ◌-◌, ◌*◌, ◌/◌, ◌%◌, ◌^◌, ◌≤◌, ◌<◌, min, max, ◌≡◌, refl, sym, ap, ap₂, ◌∙◌,
  subst, fun_ext, ◌≡⟨◌⟩◌, ◌∎, ◌≢◌, ◌↔◌, ◌⊎◌, inl, inr, Bool, true, false, not, ◌&&◌, ◌||◌,
  false≢true, Option, none, some, List, [], ◌∷◌, ◌++◌, map, reverse, append-nil, append_assoc,
  arith, ltb, leb, ◌==◌, if◌then◌else◌, ltb→lt, ltb→le, leb→le, leb→lt, lt→ltb, le→leb, ==_iff,
  Bool-cases, Option-cases, and_cases, and_not-false, or_not-false, length, get_elem?, take, drop,
  length-append, take-append-drop, length-take, length-drop, take_all, drop_all, drop-append,
  take-append, All, any,
}
use mixi.Base.Bytes.{
  Bytes, codes, bytes_eq, has_prefix, has_suffix, index, contains, bytes_eq_refl, eq_of_bytes_eq,
  bytes_eq_iff, has_prefix-append, append-of_has_prefix, cons_head, split, join, decimal,
}
use mixi.Base.Lines.{newline}
use mixi.Tools.Edits.{Edit, validate_overlaps, apply_edits}

-- charNormTable
unfoldable pub norm_rune : ℕ → ℕ
norm_rune r =
    if leb 8216 r && leb r 8219
    then 39
    else if leb 8220 r && leb r 8223
    then 34
    else if leb 8208 r && leb r 8213
    then 45
    else if r == 160 || (r == 8199 || r == 8239)
    then 32
    else r

-- WriteRune
unfoldable pub encode_rune : ℕ → Bytes
encode_rune r =
    if ltb r 128
    then r ∷ []
    else if ltb r 2048
    then (192 + r / 64) ∷ (128 + r % 64) ∷ []
    else if ltb r 65536
    then (224 + r / 4096) ∷ (128 + (r / 64) % 64) ∷ (128 + r % 64) ∷ []
    else (240 + r / 262144) ∷ (128 + (r / 4096) % 64) ∷ (128 + (r / 64) % 64) ∷ (128 + r % 64) ∷ []

unfoldable pub written : List ℕ → Bytes
written [] = []
written (r ∷ rs) = encode_rune (norm_rune r) ++ written rs

abbrev trim_end : ℕ → Bytes → Bytes
trim_end c [] = if c == 32 || c == 9 then [] else c ∷ []
trim_end c (d ∷ s) = c ∷ d ∷ s

-- strings.TrimRight(l, " \t")
unfoldable pub trim_right : Bytes → Bytes
trim_right [] = []
trim_right (c ∷ s) = trim_end c (trim_right s)

-- normalizeForMatch; `nfkc` gives the runes of norm.NFKC.String
unfoldable pub normalize_for_match : (Bytes → List ℕ) → Bytes → Bytes
normalize_for_match nfkc s = join newline (map trim_right (split newline (written (nfkc s))))

pub record EditSpec : Type 0 where
  pub old_text : Bytes
  pub new_text : Bytes

-- the occurrences after `skip` bytes, which do not overlap
unfoldable pub count_from : (skip : ℕ) → Bytes → Bytes → ℕ
count_from skip [] p = 0
count_from (suc skip) (c ∷ s) p = count_from skip s p
count_from zero (c ∷ s) p =
    let found = count_from (length p - 1) s p in
    let rest = count_from 0 s p in if has_prefix (c ∷ s) p then suc found else rest

-- the runes of a valid text are its bytes that begin one
unfoldable pub rune_count : Bytes → ℕ
rune_count [] = 0
rune_count (c ∷ s) = let rest = rune_count s in if leb 128 c && ltb c 192 then rest else suc rest

-- strings.Count
unfoldable pub count : Bytes → Bytes → ℕ
count s [] = suc (rune_count s)
count s (c ∷ p) = count_from 0 s (c ∷ p)

pub data Place : Type 0 where
  missing : Place
  unique : (off : ℕ) → Place
  repeated : (times : ℕ) → Place

-- the `switch` on strings.Count; what occurs once has an index
abbrev pub place_of : ℕ → Option ℕ → Place
place_of zero i = missing
place_of (suc zero) none = missing
place_of (suc zero) (some i) = unique i
place_of (suc (suc n)) i = repeated (suc (suc n))

abbrev pub place : Bytes → Bytes → Place
place base needle = place_of (count base needle) (index base needle)

pub data MatchError : Type 0 where
  found_many : (times : ℕ) → MatchError
  not_found : (needle : Bytes) → MatchError

abbrev pub span_of : Bytes → EditSpec → ℕ → Edit
span_of needle e off = record { start = off; stop = off + length needle; new_text = e.new_text }

abbrev pub and_exact :
    Place → EditSpec → MatchError ⊎ Option (List Edit) → MatchError ⊎ Option (List Edit)
and_exact (repeated n) e rest = inl (found_many n)
and_exact missing e (inl err) = inl err
and_exact missing e (inr spans) = inr none
and_exact (unique off) e (inl err) = inl err
and_exact (unique off) e (inr none) = inr none
and_exact (unique off) e (inr (some spans)) = inr (some (span_of e.old_text e off ∷ spans))

-- the first loop of matchEdits; `none` when an edit was not found
unfoldable pub exact_pass : Bytes → List EditSpec → MatchError ⊎ Option (List Edit)
exact_pass content [] = inr (some [])
exact_pass content (e ∷ es) = and_exact (place content e.old_text) e (exact_pass content es)

abbrev pub and_fuzzy : Place → Bytes → EditSpec → MatchError ⊎ List Edit → MatchError ⊎ List Edit
and_fuzzy missing needle e rest = inl (not_found needle)
and_fuzzy (repeated n) needle e rest = inl (found_many n)
and_fuzzy (unique off) needle e (inl err) = inl err
and_fuzzy (unique off) needle e (inr spans) = inr (span_of needle e off ∷ spans)

-- the second loop, in the normalized content
unfoldable pub fuzzy_pass : (Bytes → Bytes) → Bytes → List EditSpec → MatchError ⊎ List Edit
fuzzy_pass norm base [] = inr []
fuzzy_pass norm base (e ∷ es) =
    and_fuzzy (place base (norm e.old_text)) (norm e.old_text) e (fuzzy_pass norm base es)

abbrev pub in_base : Bytes → MatchError ⊎ List Edit → MatchError ⊎ (Bytes × List Edit)
in_base base (inl err) = inl err
in_base base (inr spans) = inr (base, spans)

abbrev pub or_fuzzy :
    (Bytes → Bytes)
    → Bytes
    → List EditSpec
    → MatchError ⊎ Option (List Edit)
    → MatchError ⊎ (Bytes × List Edit)
or_fuzzy norm content es (inl err) = inl err
or_fuzzy norm content es (inr (some spans)) = inr (content, spans)
or_fuzzy norm content es (inr none) = in_base (norm content) (fuzzy_pass norm (norm content) es)

-- matchEdits: the base, and a span in it for each edit
unfoldable pub match_edits :
    (Bytes → List ℕ) → Bytes → List EditSpec → MatchError ⊎ (Bytes × List Edit)
match_edits nfkc content es = or_fuzzy (normalize_for_match nfkc) content es (exact_pass content es)
