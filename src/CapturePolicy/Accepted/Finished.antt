-- ===== src/CapturePolicy/Accepted/Finished.antt =====
-- The globs that `validate_glob` of src/core/capture_policy.cpp accepts, by their grammar, and what
-- the test for an empty segment excludes.
use Prim.Native.Nat.{zero, suc}
use tribios_vfs.Common.{
  codes, ℕ, ◌≤◌, Bool, true, false, [], ◌∷◌, ◌++◌, Bytes, Option, none, some, ◌==◌, ◌≡◌, ◌≢◌, refl,
  ap, arith, Bool-cases, inl, inr, length, length-append,
}
use tribios_vfs.Paths.{slash}
use tribios_vfs.Store.Sql.{ok, error}
use tribios_vfs.CapturePolicy.Classes.{
  backslash, open_bracket, close_bracket, is_negation, with_member, close_class, close_first,
  close_negation, find_class_end,
}
use tribios_vfs.CapturePolicy.Parse.{
  validate, validate_glob, begins_with, ends_with, has_double_slash, has_empty_segment,
}

-- A glob is a chain of plain bytes, of backslashes with the byte behind each, and of classes, each from
-- its opening bracket to a closing one.
pub data IsFinished : Bytes → Type 0 where
  ended : IsFinished []
  plain : (c : ℕ) (s : Bytes) → c ≢ backslash → c ≢ open_bracket → IsFinished s → IsFinished (c ∷ s)
  escape : (c d : ℕ) (s : Bytes) → c ≡ backslash → IsFinished s → IsFinished (c ∷ d ∷ s)
  class :
      (c : ℕ) (s members rest : Bytes)
      → c ≡ open_bracket
      → s ≡ members ++ close_bracket ∷ rest
      → IsFinished rest
      → IsFinished (c ∷ s)

abbrev Splits : Bytes → Option (Bytes × Bytes) → Type 0
Splits glob none = Unit
Splits glob (some (members, rest)) = glob ≡ members ++ close_bracket ∷ rest

with_member-Splits :
    (c : ℕ) (glob : Bytes) (o : Option (Bytes × Bytes))
    → Splits glob o
    → Splits (c ∷ glob) (with_member c o)
unfolding with_member
with_member-Splits c glob none h = tt
with_member-Splits c glob (some (members, rest)) h = ap (λ l. c ∷ l) h

here : (c : ℕ) (glob : Bytes) → (c == close_bracket) ≡ true → Splits (c ∷ glob) (some ([], glob))
here c glob e = let same : c ≡ close_bracket = ground arith in ap (λ d. d ∷ glob) same

close_class-Splits : (glob : Bytes) → Splits glob (close_class glob)
unfolding close_class
close_class-Splits [] = tt
close_class-Splits (c ∷ []) = elim (Bool-cases (c == close_bracket)) [
  | inl e ↦ rw e (here c [] e)
  | inr n ↦ rw n tt
]
close_class-Splits (c ∷ d ∷ glob) =
    go (c == close_bracket) (c == backslash) (here c (d ∷ glob))
      (with_member-Splits c (d ∷ glob) _ (with_member-Splits d glob _ (close_class-Splits glob)))
      (with_member-Splits c (d ∷ glob) _ (close_class-Splits (d ∷ glob)))
  where
    go :
        (x y : Bool)
        → (x ≡ true → Splits (c ∷ d ∷ glob) (some ([], d ∷ glob)))
        → Splits (c ∷ d ∷ glob) (with_member c (with_member d (close_class glob)))
        → Splits (c ∷ d ∷ glob) (with_member c (close_class (d ∷ glob)))
        → Splits (c ∷ d ∷ glob) (elim x [
          | true ↦ some ([], d ∷ glob)
          | false ↦ elim y [
            | true ↦ with_member c (with_member d (close_class glob))
            | false ↦ with_member c (close_class (d ∷ glob))
          ]
        ])
    go true y k l m = k refl
    go false true k l m = l
    go false false k l m = m

close_first-Splits : (glob : Bytes) → Splits glob (close_first glob)
unfolding close_first
close_first-Splits [] = tt
close_first-Splits (c ∷ glob) = elim (Bool-cases (c == close_bracket)) [
  | inl e ↦ rw e (with_member-Splits c glob _ (close_class-Splits glob))
  | inr n ↦ rw n (close_class-Splits (c ∷ glob))
]

find_class_end-Splits : (glob : Bytes) → Splits glob (find_class_end glob)
unfolding find_class_end close_negation
find_class_end-Splits [] = tt
find_class_end-Splits (c ∷ glob) = elim (Bool-cases (is_negation c)) [
  | inl e ↦ rw e (with_member-Splits c glob _ (close_first-Splits glob))
  | inr n ↦ rw n (close_first-Splits (c ∷ glob))
]

class-shorter :
    (s members rest : Bytes) (n : ℕ)
    → s ≡ members ++ close_bracket ∷ rest
    → length s ≤ n
    → length rest ≤ n
class-shorter s members rest n e h =
    omega (arith, h, ap length e, length-append members (close_bracket ∷ rest))

validate-IsFinished :
    (n : ℕ) (glob : Bytes) → length glob ≤ n → validate n glob ≡ ok tt → IsFinished glob
unfolding validate
validate-IsFinished zero [] h e = ended
validate-IsFinished zero (c ∷ s) h e = absurd (omega (arith, h))
validate-IsFinished (suc n) [] h e = ended
validate-IsFinished (suc n) (c ∷ []) h e = elim (Bool-cases (c == backslash)) [
  | inl b ↦ absurd (ground (arith, b, e))
  | inr b ↦ elim (Bool-cases (c == open_bracket)) [
    | inl o ↦ absurd (ground (arith, b, o, e))
    | inr o ↦ plain c [] (ground (arith, b)) (ground (arith, o)) ended
  ]
]
validate-IsFinished (suc n) (c ∷ d ∷ s) h e =
    go (validate-IsFinished n) (c == backslash) (c == open_bracket) refl refl e
  where
    found :
        ((t : Bytes) → length t ≤ n → validate n t ≡ ok tt → IsFinished t)
        → (r : Option (Bytes × Bytes)) → c ≡ open_bracket
        → Splits (d ∷ s) r
        → (elim r [
          | none ↦ error (codes "unterminated character class")
          | some (members, rest) ↦ validate n rest
        ])
          ≡ ok tt
        → IsFinished (c ∷ d ∷ s)
    found ih none o split k = cc
    found ih (some (members, rest)) o split k =
        class c (d ∷ s) members rest o split
          (ih rest (class-shorter (d ∷ s) members rest n split (omega (arith, h))) k)

    go :
        ((t : Bytes) → length t ≤ n → validate n t ≡ ok tt → IsFinished t)
        → (x y : Bool) → (c == backslash) ≡ x
        → (c == open_bracket) ≡ y
        → (elim x [
          | true ↦ validate n s
          | false ↦ elim y [
            | false ↦ validate n (d ∷ s)
            | true ↦ elim (find_class_end (d ∷ s)) [
              | none ↦ error (codes "unterminated character class")
              | some (members, rest) ↦ validate n rest
            ]
          ]
        ])
          ≡ ok tt
        → IsFinished (c ∷ d ∷ s)
    go ih true y b o k = escape c d s (ground (arith, b)) (ih s (omega (arith, h)) k)
    go ih false false b o k =
        plain c (d ∷ s) (ground (arith, b)) (ground (arith, o)) (ih (d ∷ s) (omega (arith, h)) k)
    go ih false true b o k =
        found ih (find_class_end (d ∷ s)) (ground (arith, o)) (find_class_end-Splits (d ∷ s)) k

pub validate_glob-IsFinished : (glob : Bytes) → validate_glob glob ≡ ok tt → IsFinished glob
unfolding validate_glob
validate_glob-IsFinished glob e = validate-IsFinished (length glob) glob (omega arith) e

has_double_slash-append : (a b : Bytes) → has_double_slash (a ++ slash ∷ slash ∷ b) ≡ true
unfolding has_double_slash
has_double_slash-append [] b = refl
has_double_slash-append (c ∷ []) b = ground (arith, has_double_slash-append [] b)
has_double_slash-append (c ∷ d ∷ a) b = ground (arith, has_double_slash-append (d ∷ a) b)

ends_with-append : (a : Bytes) → ends_with slash (a ++ slash ∷ []) ≡ true
unfolding ends_with
ends_with-append [] = refl
ends_with-append (c ∷ []) = refl
ends_with-append (c ∷ d ∷ a) = ends_with-append (d ∷ a)

-- No slash stands at either end of the glob or beside another.
pub record HasNoEmptySegment (glob : Bytes) : Type 0 where
  pub first : (b : Bytes) → glob ≢ slash ∷ b
  pub last : (a : Bytes) → glob ≢ a ++ slash ∷ []
  pub inner : (a b : Bytes) → glob ≢ a ++ slash ∷ slash ∷ b

pub has_empty_segment-false :
    (glob : Bytes) → has_empty_segment glob ≡ false → HasNoEmptySegment glob
unfolding has_empty_segment
has_empty_segment-false glob h = record {
  first = λ b e.
      let t : begins_with slash glob ≡ true = rw e (unfold begins_with in refl) in
      absurd (ground (arith, h, t));
  last = λ a e.
      let t : ends_with slash glob ≡ true = rw e (ends_with-append a) in
      absurd (ground (arith, h, t));
  inner = λ a b e.
      let t : has_double_slash glob ≡ true = rw e (has_double_slash-append a b) in
      absurd (ground (arith, h, t));
}
