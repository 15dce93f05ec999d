-- ===== src/CapturePolicy/Decide.antt =====
-- `CapturePolicy::decide` of src/core/capture_policy.cpp: the last pattern that
-- matches decides.
use tribios_vfs.Common.{
  ℕ, ◌+◌, Bool, false, List, [], ◌∷◌, ◌++◌, Bytes, none, some, length, ◌==◌, ◌&&◌, not,
  if◌then◌else◌, ◌≡◌, refl, arith, ◌∙◌,
}
use tribios_vfs.Paths.{slash, has_slash}
use tribios_vfs.CapturePolicy.{CapturePattern, CapturePolicy, CaptureDecision}
use tribios_vfs.CapturePolicy.Glob.{match_capture_glob}

-- The bytes behind the last slash.
unfoldable pub final_segment : Bytes → Bytes
final_segment [] = []
final_segment (c ∷ s) =
    let rest = final_segment s in if has_slash s then rest else if c == slash then s else c ∷ s

unfoldable pub pattern_matches : Bytes → Bool → CapturePattern → Bool
pattern_matches relative is_directory p =
    if p.directory_only && not is_directory
    then false
    else match_capture_glob p.glob (if p.anchored then relative else final_segment relative)

-- The loop from `index` on.
unfoldable pub decide_from :
    Bytes → Bool → ℕ → List CapturePattern → CaptureDecision → CaptureDecision
decide_from relative is_directory index [] decision = decision
decide_from relative is_directory index (p ∷ patterns) decision =
    decide_from relative is_directory (index + 1) patterns (
      if pattern_matches relative is_directory p
      then record { excluded = not p.negated; pattern_index = some index }
      else decision)

unfoldable pub decide : CapturePolicy → Bytes → Bool → CaptureDecision
decide policy relative is_directory =
    decide_from relative is_directory 0 policy.patterns
      (record { excluded = false; pattern_index = none })

decide_from-append :
    (relative : Bytes) (is_directory : Bool) (index : ℕ) (ps : List CapturePattern)
    (p : CapturePattern) (d : CaptureDecision)
    → decide_from relative is_directory index (ps ++ p ∷ []) d ≡ (
        if pattern_matches relative is_directory p
        then record { excluded = not p.negated; pattern_index = some (index + length ps) }
        else decide_from relative is_directory index ps d)
unfolding decide_from
decide_from-append relative is_directory index [] p d =
    let here : index + 0 ≡ index = omega arith in rw here refl
decide_from-append relative is_directory index (q ∷ ps) p d =
    let next : index + 1 + length ps ≡ index + length (q ∷ ps) = omega arith in
    decide_from-append relative is_directory (index + 1) ps p _ ∙ rw next refl

-- The last pattern decides if it matches, and nothing else does then: a path is excluded exactly if
-- that pattern is not negated, and its index is reported. If it does not match, the decision is that
-- of the patterns before it.
pub decide-append :
    (policy : CapturePolicy) (p : CapturePattern) (relative : Bytes) (is_directory : Bool)
    → decide (record policy { patterns = policy.patterns ++ p ∷ [] }) relative is_directory ≡ (
        if pattern_matches relative is_directory p
        then record { excluded = not p.negated; pattern_index = some (length policy.patterns) }
        else decide policy relative is_directory)
unfolding decide
decide-append policy p relative is_directory =
    let start : 0 + length policy.patterns ≡ length policy.patterns = omega arith in
    decide_from-append relative is_directory 0 policy.patterns p _ ∙ rw start refl
