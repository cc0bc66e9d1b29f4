-- ===== src/Agent/Retry.antt =====
-- internal/agent/retry.go: what a provider's error means, and how long to wait before the next try.
-- Lower case is taken of ASCII letters; a duration is in nanoseconds, before the jitter, which is
-- a float.
use mixi.Base.{
  ℕ, ◌+◌, ◌-◌, ◌*◌, ◌^◌, Bool, false, ◌&&◌, ◌||◌, Option, none, some, List, [], ◌∷◌, map, leb, ◌==◌,
  if◌then◌else◌, drop, any,
}
use mixi.Base.Bytes.{Bytes, codes, has_prefix, contains}

abbrev pub retry_max_attempts : ℕ
retry_max_attempts = 5

abbrev pub retry_base_delay : ℕ
retry_base_delay = 2000000000

pub data RetryClass : Type 0 where
  fatal retryable overflow : RetryClass

abbrev pub overflow_markers : List Bytes
overflow_markers =
    codes "prompt is too long"
    ∷ codes "context length"
    ∷ codes "context window"
    ∷ codes "maximum context"
    ∷ codes "input length and `max_tokens` exceed"
    ∷ codes "too many tokens"
    ∷ []

abbrev pub transient_markers : List Bytes
transient_markers =
    codes "overloaded"
    ∷ codes "connection reset"
    ∷ codes "connection refused"
    ∷ codes "unexpected eof"
    ∷ codes "broken pipe"
    ∷ codes "timeout awaiting response"
    ∷ codes "temporary failure"
    ∷ []

abbrev lower : ℕ → ℕ
lower b = if leb 65 b && leb b 90 then b + 32 else b

unfoldable pub to_lower : Bytes → Bytes
to_lower s = map lower s

abbrev is_digit : ℕ → Bool
is_digit b = leb 48 b && leb b 57

-- The three digits at the head, if they are
abbrev three_digits : Bytes → Option ℕ
three_digits (a ∷ b ∷ c ∷ s) =
    if is_digit a && is_digit b && is_digit c
    then some (100 * (a - 48) + 10 * (b - 48) + (c - 48))
    else none
three_digits [] = none
three_digits (a ∷ []) = none
three_digits (a ∷ b ∷ []) = none

abbrev status_here : Bytes → Option ℕ
status_here s = if has_prefix s (codes "HTTP ") then three_digits (drop 5 s) else none

abbrev first_of : Option ℕ → Option ℕ → Option ℕ
first_of none o = o
first_of (some n) o = some n

-- httpStatusRe, HTTP (\d{3})
unfoldable pub http_status : Bytes → Option ℕ
http_status [] = none
http_status (b ∷ s) = first_of (status_here (b ∷ s)) (http_status s)

unfoldable pub classify_error : Bytes → RetryClass
classify_error msg =
    if any (contains (to_lower msg)) overflow_markers then overflow else elim (http_status msg) [
      | some code ↦ if (code == 429) || leb 500 code then retryable else fatal
      | none ↦ if any (contains (to_lower msg)) transient_markers then retryable else fatal
    ]

-- ["':\s]
abbrev is_filler : ℕ → Bool
is_filler b =
    b == 34
    || (b == 39)
    || (b == 58)
    || (b == 9)
    || (b == 10)
    || (b == 12)
    || (b == 13)
    || (b == 32)

-- The digits at the head; Atoi fails past the largest int.
unfoldable pub digits : ℕ → Bytes → ℕ
digits n [] = n
digits n (b ∷ s) = let rest = digits (10 * n + (b - 48)) s in if is_digit b then rest else n

abbrev max_int : ℕ
max_int = 9223372036854775807

pub data Match : Type 0 where
  no_match : Match
  number : ℕ → Match

unfoldable pub number_after : Bytes → Match
number_after [] = no_match
number_after (b ∷ s) =
    let rest = number_after s in
    if is_digit b then number (digits 0 (b ∷ s)) else if is_filler b then rest else no_match

abbrev is_joint : Bytes → Bool
is_joint [] = false
is_joint (b ∷ s) = b == 45 || (b == 95) || (b == 32)

-- retry[-_ ]after, in any case
abbrev here : Bytes → Match
here s =
    if has_prefix (to_lower s) (codes "retry")
      && is_joint (drop 5 s)
      && has_prefix (to_lower (drop 6 s)) (codes "after")
    then number_after (drop 11 s)
    else no_match

abbrev first_match : Match → Match → Match
first_match no_match m = m
first_match (number n) m = number n

unfoldable pub retry_after : Bytes → Match
retry_after [] = no_match
retry_after (b ∷ s) = first_match (here (b ∷ s)) (retry_after s)

-- A delay that the server names, in seconds, or a backoff that the jitter changes by a fifth
pub data Delay : Type 0 where
  suggested : (seconds : ℕ) → Delay
  backoff : (nanoseconds : ℕ) → Delay

abbrev backoff_from : ℕ → ℕ → Delay
backoff_from attempt base =
    backoff ((if base == 0 then retry_base_delay else base) * 2 ^ (attempt - 1))

unfoldable pub retry_delay : ℕ → Bytes → ℕ → Delay
retry_delay attempt msg base = elim (retry_after msg) [
  | no_match ↦ backoff_from attempt base
  | number n ↦ if leb n max_int then suggested n else backoff_from attempt base
]
