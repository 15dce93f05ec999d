-- ===== src/CapturePolicy.antt =====
-- The capture policy of src/core/capture_policy.cpp: character classes, and the patterns that a
-- `.tribiosignore` is compiled to.
pub mod Classes
pub mod Utf8
pub mod Parse
pub mod Glob
pub mod Decide
pub mod Describe
pub mod Accepted
mod Tests
mod GlobTests
use tribios_vfs.Common.{ℕ, Bool, List, Bytes, Option}

pub record CapturePattern : Type 0 where
  pub text : Bytes
  pub line : ℕ
  pub glob : Bytes
  pub negated : Bool
  pub directory_only : Bool
  pub anchored : Bool

-- `pattern_index` is `none` where the source has -1.
pub record CaptureDecision : Type 0 where
  pub excluded : Bool
  pub pattern_index : Option ℕ

-- The members of the class: whether the file was there, its mode, its bytes and its patterns.
pub record CapturePolicy : Type 0 where
  pub present : Bool
  pub source_mode : ℕ
  pub source : Bytes
  pub patterns : List CapturePattern
