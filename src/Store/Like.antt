-- ===== src/Store/Like.antt =====
-- `escape_like_wildcards` of src/core/metadata_store.cpp against what SQLite documents of LIKE, and
-- the rows that the DELETE of `remove_tombstones_under` takes.
use tribios_vfs.Common.{
  map, ℕ, ◌+◌, Bool, true, false, [], ◌∷◌, ◌++◌, Bytes, codes, bytes_eq, bytes_eq_iff,
  bytes_eq_sound, ◌==◌, ◌&&◌, ◌||◌, if◌then◌else◌, not, leb, ◌≡◌, ◌≢◌, ◌↔◌, ◌⊎◌, inl, inr, refl,
  arith, Bool-cases,
}
use tribios_vfs.Store.Types.{TombstoneRow}
use tribios_vfs.Store.Sql.{Sqlite}
use tribios_vfs.Store.Tombstones.{escape_like_wildcards, falls_under}

-- SQLite folds the case of the ASCII letters, and of no other character.
abbrev pub fold_case : ℕ → ℕ
fold_case c = if leb b'A' c && leb c b'Z' then c + 32 else c

-- The documented meaning of `text LIKE pattern ESCAPE '\'`: the escape makes the next character
-- literal, `%` stands for any text, `_` for one character, and a literal matches in either case. A
-- character is a byte here, so a pattern has no `_` that is not escaped where this is assumed.
pub data LikeMatches : Bytes → Bytes → Type 0 where
  done : LikeMatches [] []
  escaped :
      {e c d : ℕ} {p t : Bytes}
      → e ≡ b'\\'
      → fold_case c ≡ fold_case d
      → LikeMatches p t
      → LikeMatches (e ∷ c ∷ p) (d ∷ t)
  skip : {e : ℕ} {p t : Bytes} → e ≡ b'%' → LikeMatches p t → LikeMatches (e ∷ p) t
  more : {e d : ℕ} {p t : Bytes} → e ≡ b'%' → LikeMatches (e ∷ p) t → LikeMatches (e ∷ p) (d ∷ t)
  one : {e d : ℕ} {p t : Bytes} → e ≡ b'_' → LikeMatches p t → LikeMatches (e ∷ p) (d ∷ t)
  literal :
      {c d : ℕ} {p t : Bytes}
      → c ≢ b'\\'
      → c ≢ b'%'
      → c ≢ b'_'
      → fold_case c ≡ fold_case d
      → LikeMatches p t
      → LikeMatches (c ∷ p) (d ∷ t)

-- Every `_` of the pattern is escaped.
unfoldable pub escapes_underscores : Bytes → Bool
escapes_underscores [] = true
escapes_underscores (c ∷ []) = not (c == b'_')
escapes_underscores (c ∷ d ∷ p) =
    let behind = escapes_underscores p in
    let next = escapes_underscores (d ∷ p) in
    if c == b'\\' then behind else if c == b'_' then false else next

escapes_underscores-cons :
    (c : ℕ) (p : Bytes)
    → (c == b'\\') ≡ false
    → (c == b'_') ≡ false
    → escapes_underscores p ≡ true
    → escapes_underscores (c ∷ p) ≡ true
unfolding escapes_underscores
escapes_underscores-cons c [] x y h = ground (arith, y)
escapes_underscores-cons c (d ∷ p) x y h = ground (arith, x, y, h)

escapes_underscores-escape :
    (s : Bytes) → escapes_underscores (escape_like_wildcards s ++ codes "/%") ≡ true
unfolding escape_like_wildcards escapes_underscores
escapes_underscores-escape [] = refl
escapes_underscores-escape (c ∷ s) =
    let ih = escapes_underscores-escape s in
    elim (Bool-cases ((c == b'\\') || (c == b'%') || (c == b'_'))) [
      | inl e ↦ rw e ih
      | inr e ↦ rw e (
          escapes_underscores-cons c (escape_like_wildcards s ++ codes "/%") (ground (arith, e))
            (ground (arith, e)) ih)
    ]

-- The texts are equal but for the case of ASCII letters.
abbrev pub SameLetters : Bytes → Bytes → Type 0
SameLetters p q = map fold_case p ≡ map fold_case q

-- What a pattern that begins with the literal `c` says of a text.
abbrev BeginsLike : ℕ → Bytes → Bytes → Type 0
BeginsLike c p t =
    (d : ℕ) × (r : Bytes) × (t ≡ d ∷ r) × (fold_case c ≡ fold_case d) × LikeMatches p r

invert_escaped : {e c : ℕ} {p t : Bytes} → LikeMatches (e ∷ c ∷ p) t → e ≡ b'\\' → BeginsLike c p t
invert_escaped (escaped {d = d} {t = t} b f m) h = (d, t, refl, f, m)
invert_escaped (skip b m) h = absurd (omega arith)
invert_escaped (more b m) h = absurd (omega arith)
invert_escaped (one b m) h = absurd (omega arith)
invert_escaped (literal x y z f m) h = absurd (x h)

invert_literal :
    {c : ℕ} {p t : Bytes}
    → LikeMatches (c ∷ p) t
    → c ≢ b'\\'
    → c ≢ b'%'
    → c ≢ b'_'
    → BeginsLike c p t
invert_literal (escaped b f m) x y z = absurd (x b)
invert_literal (skip b m) x y z = absurd (y b)
invert_literal (more b m) x y z = absurd (y b)
invert_literal (one b m) x y z = absurd (z b)
invert_literal (literal {d = d} {t = t} _ _ _ f m) x y z = (d, t, refl, f, m)

percent_any : (t : Bytes) → LikeMatches (b'%' ∷ []) t
percent_any [] = skip refl done
percent_any (d ∷ t) = more refl (percent_any t)

fold_case_slash : (d : ℕ) → fold_case b'/' ≡ fold_case d → d ≡ b'/'
fold_case_slash d h = ground arith

-- The pattern of the DELETE for a path.
abbrev pub below_pattern : Bytes → Bytes
below_pattern path = escape_like_wildcards path ++ codes "/%"

-- The text is a path, in some case of its letters, with an entry beneath it.
abbrev pub IsBelow : Bytes → Bytes → Type 0
IsBelow path text = (q : Bytes) × (r : Bytes) × (text ≡ q ++ b'/' ∷ r) × SameLetters path q

abbrev is_special : ℕ → Bool
is_special c = (c == b'\\') || (c == b'%') || (c == b'_')

escape-special :
    (c : ℕ) (p : Bytes) → is_special c ≡ true → below_pattern (c ∷ p) ≡ b'\\' ∷ c ∷ below_pattern p
unfolding escape_like_wildcards
escape-special c p h = rw h

escape-plain :
    (c : ℕ) (p : Bytes) → is_special c ≡ false → below_pattern (c ∷ p) ≡ c ∷ below_pattern p
unfolding escape_like_wildcards
escape-plain c p h = rw h

below_pattern_nil : below_pattern [] ≡ b'/' ∷ b'%' ∷ []
unfolding escape_like_wildcards
below_pattern_nil = refl

begins :
    (c : ℕ) (p t : Bytes) → LikeMatches (below_pattern (c ∷ p)) t → BeginsLike c (below_pattern p) t
begins c p t m = elim (Bool-cases (is_special c)) [
  | inl s ↦ invert_escaped (rw (escape-special c p s) at m) refl
  | inr s ↦
      invert_literal (rw (escape-plain c p s) at m) (ground arith) (ground arith) (ground arith)
]

-- Beneath the escaped path the pattern takes only texts that are below it.
pub IsBelow-sound : (p t : Bytes) → LikeMatches (below_pattern p) t → IsBelow p t
IsBelow-sound [] t m =
    let m' : LikeMatches (b'/' ∷ b'%' ∷ []) t = rw below_pattern_nil at m in
    let (d, r, e, f, _) = invert_literal m' (omega arith) (omega arith) (omega arith) in
    ([], r, cc (e, fold_case_slash d f), refl)
IsBelow-sound (c ∷ p) t m =
    let (d, r, e, f, rest) = begins c p t m in
    let (q, s, e', same) = IsBelow-sound p r rest in (d ∷ q, s, cc (e, e'), cc (f, same))

below_complete : (p q r : Bytes) → SameLetters p q → LikeMatches (below_pattern p) (q ++ b'/' ∷ r)
below_complete [] [] r h =
    rw below_pattern_nil (literal (omega arith) (omega arith) (omega arith) refl (percent_any r))
below_complete [] (d ∷ q) r h = cc
below_complete (c ∷ p) [] r h = cc
below_complete (c ∷ p) (d ∷ q) r h =
    let parts : (fold_case c ≡ fold_case d) × SameLetters p q = (cc, cc) in
    elim (Bool-cases (is_special c)) [
      | inl s ↦ rw (escape-special c p s) (escaped refl parts.0 (below_complete p q r parts.1))
      | inr s ↦ rw (escape-plain c p s) (
          literal (ground arith) (ground arith) (ground arith) parts.0
            (below_complete p q r parts.1))
    ]

module _ (sql : Sqlite) where
  -- What the store relies on: LIKE as it is documented, for patterns that escape each `_`.
  abbrev pub LikeIsDocumented : Type 0
  LikeIsDocumented =
      (p t : Bytes) → escapes_underscores p ≡ true → (sql.like p t ≡ true) ↔ LikeMatches p t

  -- With LIKE as documented, the DELETE takes a row exactly when it is a row of the Workspace whose
  -- path is the given one, or has an entry beneath a path that equals it up to the case of ASCII
  -- letters; a wildcard or a backslash in the path stands for itself.
  pub falls_under_iff :
      LikeIsDocumented
      → (workspace path : Bytes) (t : TombstoneRow)
      → (falls_under sql workspace path t ≡ true)
        ↔ ((t.workspace ≡ workspace) × ((t.path ≡ path) ⊎ IsBelow path t.path))
  unfolding falls_under
  falls_under_iff law workspace path t = (taken, takes)
    where
      taken :
          falls_under sql workspace path t ≡ true
          → (t.workspace ≡ workspace) × ((t.path ≡ path) ⊎ IsBelow path t.path)
      taken h = elim (Bool-cases (bytes_eq t.path path)) [
        | inl e ↦ (
          bytes_eq_sound t.workspace workspace (ground arith),
          inl (bytes_eq_sound t.path path e),
        )
        | inr e ↦ (
          bytes_eq_sound t.workspace workspace (ground arith),
          inr (
              IsBelow-sound path t.path
                ((law _ _ (escapes_underscores-escape path)).0 (ground arith))),
        )
      ]

      takes :
          (t.workspace ≡ workspace) × ((t.path ≡ path) ⊎ IsBelow path t.path)
          → falls_under sql workspace path t ≡ true
      takes (w, inl e) =
          ground (arith, (bytes_eq_iff t.workspace workspace).1 w, (bytes_eq_iff t.path path).1 e)
      takes (w, inr (q, r, e, same)) =
          let like : sql.like (below_pattern path) t.path ≡ true =
            (law _ _ (escapes_underscores-escape path)).1 (rw e (below_complete path q r same)) in
          ground (arith, (bytes_eq_iff t.workspace workspace).1 w, like)
