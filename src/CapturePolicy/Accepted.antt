-- ===== src/CapturePolicy/Accepted.antt =====
-- What the patterns are that src/core/capture_policy.cpp accepts.
pub mod Finished
use tribios_vfs.Common.{
  ℕ, Bool, true, false, [], ◌∷◌, ◌++◌, Bytes, is_empty, drop_last, Option, none, some, ◌==◌, ◌||◌,
  ◌≡◌, ◌≢◌, refl, sym, ap, ◌∙◌, arith, Bool-cases, inl, inr, append-nil,
}
use tribios_vfs.Paths.{slash, has_slash}
use tribios_vfs.Store.Sql.{Outcome, ok, error}
use tribios_vfs.CapturePolicy.{CapturePattern}
use tribios_vfs.CapturePolicy.Accepted.Finished.{
  HasNoEmptySegment, IsFinished, has_empty_segment-false, validate_glob-IsFinished,
}
use tribios_vfs.CapturePolicy.Parse.{
  ends_with, begins_with, drop_if, drop_last_if, trim_unescaped_trailing_whitespace, validate_glob,
  has_empty_segment, with_valid, check_pattern, pattern_of, parse_trimmed, parse_pattern_line,
}

-- A marker that stands or does not.
abbrev pub mark : Bool → ℕ → Bytes → Bytes
mark true c s = c ∷ s
mark false c s = s

mark-begins_with : (c : ℕ) (s : Bytes) → mark (begins_with c s) c (drop_if (begins_with c s) s) ≡ s
unfolding begins_with
mark-begins_with c [] = refl
mark-begins_with c (d ∷ s) = elim (Bool-cases (d == c)) [
  | inl e ↦ let same : d ≡ c = ground arith in rw (e, same) refl
  | inr e ↦ rw e refl
]

drop_last-ends_with : (c : ℕ) (s : Bytes) → ends_with c s ≡ true → drop_last s ++ c ∷ [] ≡ s
unfolding ends_with
drop_last-ends_with c [] h = cc
drop_last-ends_with c (d ∷ []) h = let same : d ≡ c = ground arith in rw same refl
drop_last-ends_with c (d ∷ e ∷ s) h = ap (λ l. d ∷ l) (drop_last-ends_with c (e ∷ s) h)

mark-ends_with :
    (c : ℕ) (s : Bytes) → drop_last_if (ends_with c s) s ++ mark (ends_with c s) c [] ≡ s
mark-ends_with c s = elim (Bool-cases (ends_with c s)) [
  | inl e ↦ rw e (drop_last-ends_with c s e)
  | inr e ↦ rw e (append-nil s)
]

mark-append : (b : Bool) (c : ℕ) (s t : Bytes) → mark b c s ++ t ≡ mark b c (s ++ t)
mark-append true c s t = refl
mark-append false c s t = refl

-- What an accepted pattern is: a glob that names a path without an empty segment, whose escapes and
-- classes are finished, and the marks of the line around it.
pub record IsAccepted (p : CapturePattern) : Type 0 where
  pub named : p.glob ≢ []
  pub segments : HasNoEmptySegment p.glob
  pub finished : IsFinished p.glob
  pub leading : Bool
  pub written :
      p.text ≡ mark p.negated 0x21 (mark leading slash (p.glob ++ mark p.directory_only slash []))
  pub anchor : p.anchored ≡ (leading || has_slash p.glob)

abbrev AcceptedOutcome : Outcome (Option CapturePattern) → Type 0
AcceptedOutcome (error m) = Unit
AcceptedOutcome (ok none) = Unit
AcceptedOutcome (ok (some p)) = IsAccepted p

pattern_of-written :
    (line : Bytes) (number : ℕ)
    → let p = pattern_of line number in
      let bare = drop_if p.negated line in
      let named = drop_last_if p.directory_only bare in
      line
      ≡ mark p.negated 0x21
          (mark (begins_with slash named) slash (p.glob ++ mark p.directory_only slash []))
unfolding pattern_of
pattern_of-written line number =
    let bare = drop_if (begins_with 0x21 line) line in
    let d = ends_with slash bare in
    let named = drop_last_if d bare in
    let l = begins_with slash named in
    sym (
      ap (mark (begins_with 0x21 line) 0x21) (
        sym (mark-append l slash (drop_if l named) (mark d slash []))
        ∙ ap (λ w. w ++ mark d slash []) (mark-begins_with slash named)
        ∙ mark-ends_with slash bare)
      ∙ mark-begins_with 0x21 line)

not_empty : (s : Bytes) → is_empty s ≡ false → s ≢ []
not_empty s h e = let t : is_empty s ≡ true = rw e refl in absurd (cc (h, t))

check_pattern-Accepted :
    (p : CapturePattern) (leading : Bool)
    → p.text ≡ mark p.negated 0x21 (mark leading slash (p.glob ++ mark p.directory_only slash []))
    → p.anchored ≡ (leading || has_slash p.glob)
    → AcceptedOutcome (check_pattern p)
unfolding check_pattern
check_pattern-Accepted p leading w a = elim (Bool-cases (is_empty p.glob)) [
  | inl e ↦ rw e tt
  | inr n ↦ elim (Bool-cases (has_empty_segment p.glob)) [
    | inl e ↦ rw (n, e) tt
    | inr g ↦
        rw (n, g)
          (go (validate_glob p.glob) (λ v. record {
            named = not_empty p.glob n;
            segments = has_empty_segment-false p.glob g;
            finished = validate_glob-IsFinished p.glob v;
            leading = leading;
            written = w;
            anchor = a;
          }))
  ]
]
  where
    go : (r : Outcome (Unit {0})) → (r ≡ ok tt → IsAccepted p) → AcceptedOutcome (with_valid p r)
    go (error m) k = unfold with_valid in tt
    go (ok u) k = unfold with_valid in k refl

parse_pattern_line-Accepted :
    (line : Bytes) (number : ℕ) → AcceptedOutcome (parse_pattern_line line number)
unfolding parse_pattern_line parse_trimmed pattern_of trim_unescaped_trailing_whitespace begins_with
parse_pattern_line-Accepted line number =
    let ended = drop_last_if (ends_with 0x0d line) line in
    let trimmed = trim_unescaped_trailing_whitespace ended in
    elim (Bool-cases (is_empty ended || begins_with 0x23 ended)) [
      | inl e ↦ rw e tt
      | inr n ↦ elim (Bool-cases (is_empty trimmed)) [
        | inl e ↦ rw (n, e) tt
        | inr m ↦
            rw (n, m)
              (check_pattern-Accepted (pattern_of trimmed number) _
                (pattern_of-written trimmed number) (unfold pattern_of in refl))
      ]
    ]

-- A line that is accepted as a pattern gives a glob that is not empty, has no slash at an end or beside
-- another, and is a chain of plain bytes, of backslashes with a byte behind each, and of classes with
-- their closing brackets; the text kept of the line is that glob between its marks: `!` for
-- a negation, a leading slash, and a slash at the end for directories; and the pattern is anchored
-- exactly if it has the leading slash or a slash within.
pub parse_pattern_line-IsAccepted :
    (line : Bytes) (number : ℕ) (p : CapturePattern)
    → parse_pattern_line line number ≡ ok (some p)
    → IsAccepted p
parse_pattern_line-IsAccepted line number p h = rw h at (parse_pattern_line-Accepted line number)
