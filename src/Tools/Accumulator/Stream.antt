-- ===== src/Tools/Accumulator/Stream.antt =====
-- internal/tools/accumulator.go: what is kept of the stream.
use mixi.Base.{
  ℕ, zero, suc, ◌+◌, ◌-◌, ◌≤◌, ◌<◌, ◌≡◌, refl, sym, ap, ap₂, ◌∙◌, subst, inl, inr, Bool, true,
  false, Option, none, some, [], ◌∷◌, ◌++◌, arith, ltb, leb, ltb→lt, ltb→le, le→leb, Bool-cases,
  Option-cases, length, take, drop, length-append, length-drop, take_all,
}
use mixi.Base.Bytes.{Bytes}
use mixi.Tools.Accumulator.{
  Accumulator, Disk, new_accumulator, take_in, spill, spill_once, roll, write, read_from,
  persist_full,
}

-- What the file stands for: all of the stream, or, while there is none, that memory has lost
-- nothing. After an error it stands for nothing.
abbrev FileHolds : Bytes → ℕ → Option Bytes → Bool → Type 0
FileHolds stream start none true = Unit
FileHolds stream start none false = start ≡ 0
FileHolds stream start (some held) true = Unit
FileHolds stream start (some held) false = held ≡ stream

-- The accumulator stands for a stream: the buffer is its end.
pub record Keeps (stream : Bytes) (a : Accumulator) : Type 0 where
  pub counted : a.total ≡ length stream
  pub in_range : a.buf_start ≤ length stream
  pub tail_kept : a.buf ≡ drop a.buf_start stream
  pub file_holds : FileHolds stream a.buf_start a.file a.file_err

drop-append_le : (n : ℕ) (s t : Bytes) → n ≤ length s → drop n (s ++ t) ≡ drop n s ++ t
drop-append_le zero s t h = refl
drop-append_le (suc n) [] t h = absurd (omega arith)
drop-append_le (suc n) (b ∷ s) t h = drop-append_le n s t (omega arith)

drop-nil : (n : ℕ) → drop {A = ℕ} n [] ≡ []
drop-nil zero = refl
drop-nil (suc n) = refl

drop-drop : (m n : ℕ) (s : Bytes) → drop m (drop n s) ≡ drop (n + m) s
drop-drop m zero s = ap (λ j. drop j s) (omega arith)
drop-drop m (suc n) [] = drop-nil m ∙ sym (drop-nil (suc n + m))
drop-drop m (suc n) (b ∷ s) = drop-drop m n s ∙ ap (λ j. drop j (b ∷ s)) (shift n m)
  where
    shift : (n m : ℕ) → suc (n + m) ≡ suc n + m
    shift n m = omega arith

module _ (d : Disk) (p stream : Bytes) (a : Accumulator) (k : Keeps stream a) where
  tail_lem : a.buf ++ p ≡ drop a.buf_start (stream ++ p)
  tail_lem = ap (λ b. b ++ p) k.tail_kept ∙ sym (drop-append_le a.buf_start stream p k.in_range)

  counted_lem : a.total + length p ≡ length (stream ++ p)
  counted_lem = omega (arith, length-append stream p, k.counted)

  range_lem : a.buf_start ≤ length (stream ++ p)
  range_lem = omega (arith, length-append stream p, k.in_range)

  take_in-cases :
      (f : Option Bytes) (e : Bool) (sh : Option ℕ)
      → FileHolds stream a.buf_start f e
      → Keeps
          (stream ++ p)
          (take_in (record d { short = sh }) p (record a { file = f; file_err = e }))
  unfolding take_in
  take_in-cases none true sh h = record {
    counted = counted_lem;
    in_range = range_lem;
    tail_kept = tail_lem;
    file_holds = tt;
  }
  take_in-cases none false sh h = record {
    counted = counted_lem;
    in_range = range_lem;
    tail_kept = tail_lem;
    file_holds = h;
  }
  take_in-cases (some held) true sh h = record {
    counted = counted_lem;
    in_range = range_lem;
    tail_kept = tail_lem;
    file_holds = tt;
  }
  take_in-cases (some held) false none h = record {
    counted = counted_lem;
    in_range = range_lem;
    tail_kept = tail_lem;
    file_holds = ap (λ b. b ++ p) h;
  }
  take_in-cases (some held) false (some n) h = record {
    counted = counted_lem;
    in_range = range_lem;
    tail_kept = tail_lem;
    file_holds = tt;
  }

  take_in-Keeps : Keeps (stream ++ p) (take_in d p a)
  take_in-Keeps = take_in-cases a.file a.file_err d.short k.file_holds

-- A spill writes the buffer, which has lost nothing before the first one.
module _ (d : Disk) (stream : Bytes) (a : Accumulator) (k : Keeps stream a) where
  whole_lem : a.buf_start ≡ 0 → a.buf ≡ stream
  whole_lem h = k.tail_kept ∙ ap (λ n. drop n stream) h

  drop_range : a.buf_start + (length a.buf - a.max_rolling) ≤ length stream
  drop_range = omega (arith, k.in_range, ap length k.tail_kept, length-drop a.buf_start stream)

  drop_tail :
      drop (length a.buf - a.max_rolling) a.buf
      ≡ drop (a.buf_start + (length a.buf - a.max_rolling)) stream
  drop_tail =
      ap (drop (length a.buf - a.max_rolling)) k.tail_kept
      ∙ drop-drop (length a.buf - a.max_rolling) a.buf_start stream

  spilled-cases :
      (f : Option Bytes) (e c : Bool) (sh : Option ℕ)
      → FileHolds stream a.buf_start f e
      → Keeps stream (
          roll (
            spill_once
              (record d { creates = c; short = sh })
              (record a { file = f; file_err = e })))
  unfolding spill
  spilled-cases (some held) true c sh h = record {
    counted = k.counted;
    in_range = drop_range;
    tail_kept = drop_tail;
    file_holds = tt;
  }
  spilled-cases (some held) false c sh h = record {
    counted = k.counted;
    in_range = drop_range;
    tail_kept = drop_tail;
    file_holds = h;
  }
  spilled-cases none true c sh h = record {
    counted = k.counted;
    in_range = drop_range;
    tail_kept = drop_tail;
    file_holds = tt;
  }
  spilled-cases none false true none h = record {
    counted = k.counted;
    in_range = drop_range;
    tail_kept = drop_tail;
    file_holds = whole_lem h;
  }
  spilled-cases none false true (some n) h = record {
    counted = k.counted;
    in_range = drop_range;
    tail_kept = drop_tail;
    file_holds = tt;
  }
  spilled-cases none false false sh h = record {
    counted = k.counted;
    in_range = drop_range;
    tail_kept = drop_tail;
    file_holds = tt;
  }

  pub roll-Keeps : Keeps stream (roll (spill_once d a))
  roll-Keeps = spilled-cases a.file a.file_err d.creates d.short k.file_holds

pub new_accumulator-Keeps : Keeps [] new_accumulator
new_accumulator-Keeps = record {
  counted = refl;
  in_range = omega arith;
  tail_kept = refl;
  file_holds = refl;
}

-- An accumulator that stands for a stream stands, after a write, for the stream with what was
-- written at its end: the buffer is the end of it, and the file is all of it as long as no write
-- to the file has failed.
pub write-Keeps :
    (d : Disk) (p stream : Bytes) (a : Accumulator)
    → Keeps stream a
    → Keeps (stream ++ p) (write d p a)
unfolding write
write-Keeps d p stream a k =
    elim (Bool-cases (ltb (take_in d p a).max_rolling (length (take_in d p a).buf))) [
      | inl q ↦ rw q (roll-Keeps d (stream ++ p) (take_in d p a) (take_in-Keeps d p stream a k))
      | inr q ↦ rw q (take_in-Keeps d p stream a k)
    ]

roll-max_rolling :
    (d : Disk) (a : Accumulator)
    → length (roll (spill_once d a)).buf ≤ (roll (spill_once d a)).max_rolling
roll-max_rolling d a = omega (
  arith,
  length-drop (length (spill_once d a).buf - (spill_once d a).max_rolling) (spill_once d a).buf,
)

-- However much is written, memory keeps no more than the rolling maximum.
pub write-max_rolling :
    (d : Disk) (p : Bytes) (a : Accumulator) → length (write d p a).buf ≤ (write d p a).max_rolling
unfolding write
write-max_rolling d p a =
    elim (Bool-cases (ltb (take_in d p a).max_rolling (length (take_in d p a).buf))) [
      | inl q ↦ rw q (roll-max_rolling d (take_in d p a))
      | inr q ↦ rw q (ltb→le (take_in d p a).max_rolling (length (take_in d p a).buf) q)
    ]

read_from-cases :
    (f : Option Bytes) (offset : ℕ) (stream : Bytes) (a : Accumulator)
    → Keeps stream a
    → FileHolds stream a.buf_start f false
    → offset < length stream
    → leb a.total offset ≡ false
    → read_from offset (record a { file = f }) ≡ (some (drop offset stream), length stream)
unfolding read_from
read_from-cases none offset stream a k e h t = elim (Bool-cases (ltb offset a.buf_start)) [
  | inl q ↦ absurd (let l : offset < a.buf_start = ltb→lt offset a.buf_start q in omega arith)
  | inr q ↦ rw (t, q) (ap₂ (λ x y. (some x, y)) (from_start a.buf_start e k.tail_kept) k.counted)
]
  where
    from_start :
        (start : ℕ)
        → start ≡ 0
        → a.buf ≡ drop start stream
        → drop (offset - start) a.buf ≡ drop offset stream
    from_start zero e u = ap₂ drop (omega arith) u
    from_start (suc n) e u = absurd (omega arith)
read_from-cases (some held) offset stream a k e h t =
    rw (t, whole) (ap₂ (λ x y. (some x, y)) (take_rest ∙ ap (drop offset) e) k.counted)
  where
    same : length held ≡ length stream
    same = ap length e

    whole : leb (offset + (a.total - offset)) (length held) ≡ true
    whole = le→leb (offset + (a.total - offset)) (length held) (omega (arith, k.counted, same))

    take_rest : take (a.total - offset) (drop offset held) ≡ drop offset held
    take_rest =
        take_all (a.total - offset) (drop offset held)
          (omega (arith, length-drop offset held, k.counted, same))

persist_full-cases :
    (f : Option Bytes) (d : Disk) (stream out : Bytes) (a : Accumulator)
    → Keeps stream a
    → FileHolds stream a.buf_start f false
    → a.file_err ≡ false
    → persist_full d (record a { file = f }) ≡ some out
    → out ≡ stream
unfolding persist_full
persist_full-cases (some held) d stream out a k e ok h = cc (h, e)
persist_full-cases none d stream out a k e ok h = elim (Bool-cases d.creates) [
  | inr q ↦ absurd (none_some (rw (persist_full, ok, e, q) at h))
  | inl q ↦ elim (Option-cases d.short) [
    | inr (n, r) ↦ absurd (none_some (rw (persist_full, ok, e, q, r) at h))
    | inl r ↦
        let u : some a.buf ≡ some out = rw (persist_full, ok, e, q, r) at h in
        let v : a.buf ≡ out = cc u in sym v ∙ whole_lem d stream a k e
  ]
]
  where
    none_some : {x : Bytes} → none ≡ some x → ⊥
    none_some q = cc

-- In an accumulator that stands for a stream, and while no write to the file has failed, a read from
-- an offset inside the stream answers with all that the stream has after it, and the cursor moves to
-- the stream's end.
pub read_from-stream :
    (offset : ℕ) (stream : Bytes) (a : Accumulator)
    → Keeps stream a
    → a.file_err ≡ false
    → offset < length stream
    → read_from offset a ≡ (some (drop offset stream), length stream)
unfolding read_from
read_from-stream offset stream a k ok h =
    read_from-cases a.file offset stream a k
      (subst (FileHolds stream a.buf_start a.file) ok k.file_holds) h below
  where
    below : leb a.total offset ≡ false
    below = ground (arith, k.counted)

-- In an accumulator that stands for a stream, and while no write to the file has failed, the file
-- that persist_full names, if it names one, holds the whole stream.
pub persist_full-stream :
    (d : Disk) (stream out : Bytes) (a : Accumulator)
    → Keeps stream a
    → a.file_err ≡ false
    → persist_full d a ≡ some out
    → out ≡ stream
unfolding persist_full
persist_full-stream d stream out a k ok h =
    persist_full-cases a.file d stream out a k
      (subst (FileHolds stream a.buf_start a.file) ok k.file_holds) ok h
