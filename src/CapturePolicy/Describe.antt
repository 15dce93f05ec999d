-- ===== src/CapturePolicy/Describe.antt =====
-- `CapturePolicy::describe_pattern` of src/core/capture_policy.cpp.
use tribios_vfs.Common.{
  ℕ, zero, suc, List, [], ◌∷◌, ◌++◌, Bytes, codes, to_string, Option, none, some,
}
use tribios_vfs.CapturePolicy.{CapturePattern, CapturePolicy, CaptureDecision}

abbrev pub capture_policy_file_name : Bytes
capture_policy_file_name = codes ".tribiosignore"

-- An index out of range is not in the source's contract.
unfoldable pub pattern_text : ℕ → List CapturePattern → Bytes
pattern_text index [] = []
pattern_text zero (p ∷ ps) =
    capture_policy_file_name ++ codes ":" ++ to_string p.line ++ codes ": " ++ p.text
pattern_text (suc index) (p ∷ ps) = pattern_text index ps

unfoldable pub describe_index : Option ℕ → List CapturePattern → Bytes
describe_index none ps = codes "no pattern matches"
describe_index (some index) ps = pattern_text index ps

unfoldable pub describe_pattern : CapturePolicy → CaptureDecision → Bytes
describe_pattern policy d = describe_index d.pattern_index policy.patterns
