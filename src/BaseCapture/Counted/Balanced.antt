-- ===== src/BaseCapture/Counted/Balanced.antt =====
-- Counts that grow as the Base state does, and the counts of an excluded tree, for
-- src/core/base_capture.cpp.
use tribios_vfs.Common.{
  ℕ, ◌+◌, List, [], ◌∷◌, Bytes, length, Option, none, some, ◌≡◌, refl, ◌∙◌, arith, Bool-cases, inl,
  inr,
}
use tribios_vfs.Store.Sql.{ok, error}
use tribios_vfs.CapturePolicy.{CaptureDecision}
use tribios_vfs.BaseCapture.{
  Stat, Entries, no_more, gone, entry, CaptureStats, Saved, saved_link, saved_directory, saved_file,
  CaptureWalk, Sink,
}
use tribios_vfs.BaseCapture.Excluded.{
  within, add_excluded, count_excluded_tree, count_excluded_entries, is_passed_over, is_directory,
}
use tribios_vfs.BaseCapture.Walk.{Captured, and_then, exclude}

unfoldable pub saved_bytes : List Saved → ℕ
saved_bytes [] = 0
saved_bytes (saved_link p t ∷ xs) = saved_bytes xs
saved_bytes (saved_directory p m ∷ xs) = saved_bytes xs
saved_bytes (saved_file p body m ∷ xs) = length body + saved_bytes xs

-- From one sink to another the counts grow as the Base state does, but for `k` entries.
pub record IsBalanced (k : ℕ) (s t : Sink) : Type 0 where
  pub entries : t.stats.entry_count + length s.base + k ≡ s.stats.entry_count + length t.base
  pub content : t.stats.bytes + saved_bytes s.base ≡ s.stats.bytes + saved_bytes t.base

abbrev pub Balances : ℕ → Sink → Captured → Type 0
Balances k s (error m, t) = Unit
Balances k s (ok u, t) = IsBalanced k s t

pub same-IsBalanced : (s : Sink) → IsBalanced 0 s s
same-IsBalanced s = record { entries = omega arith; content = refl }

pub IsBalanced-trans :
    (s t r : Sink) (j k : ℕ) → IsBalanced j s t → IsBalanced k t r → IsBalanced (j + k) s r
IsBalanced-trans s t r j k p q = record {
  entries = omega (arith, p.entries, q.entries);
  content = omega (arith, p.content, q.content);
}

pub and_then-Balances :
    (s : Sink) (j k : ℕ) (r : Captured) (f : Sink → Captured)
    → Balances j s r
    → ((t : Sink) → Balances k t (f t))
    → Balances (j + k) s (and_then r f)
unfolding and_then
and_then-Balances s j k (error m, t) f h g = tt
and_then-Balances s j k (ok u, t) f h g = after (f t) (g t)
  where
    after : (c : Captured) → Balances k t c → Balances (j + k) s c
    after (error m, r) q = tt
    after (ok v, r) q = IsBalanced-trans s t r j k h q

-- The counts of what is captured.
pub record IsUncounted (c d : CaptureStats) : Type 0 where
  pub entries : d.entry_count ≡ c.entry_count
  pub content : d.bytes ≡ c.bytes

IsUncounted-trans : (c d e : CaptureStats) → IsUncounted c d → IsUncounted d e → IsUncounted c e
IsUncounted-trans c d e p q = record {
  entries = q.entries ∙ p.entries;
  content = q.content ∙ p.content;
}

within-IsUncounted :
    (st : Stat) (unreadable : Option Bytes) (inner : CaptureStats → CaptureStats) (c : CaptureStats)
    → ((d : CaptureStats) → IsUncounted d (inner d))
    → IsUncounted c (within st unreadable inner c)
unfolding within
within-IsUncounted st (some e) inner c h = record { entries = refl; content = refl }
within-IsUncounted st none inner c h = elim (Bool-cases (is_directory st.file_type)) [
  | inl e ↦ rw e (h c)
  | inr e ↦ rw e (record { entries = refl; content = refl })
]

add_excluded-IsUncounted :
    (st : Stat) (content : Bytes) (c : CaptureStats) → IsUncounted c (add_excluded st content c)
unfolding add_excluded
add_excluded-IsUncounted st content c = record { entries = refl; content = refl }

count_excluded_entries-IsUncounted :
    (device : ℕ) (es : Entries) (c : CaptureStats)
    → IsUncounted c (count_excluded_entries device es c)
unfolding count_excluded_entries
count_excluded_entries-IsUncounted device no_more c = record { entries = refl; content = refl }
count_excluded_entries-IsUncounted device (gone name rest) c =
    count_excluded_entries-IsUncounted device rest c
count_excluded_entries-IsUncounted device (entry name st content unreadable inside rest) c =
    let added = add_excluded st content c in
    let counted = within st unreadable (count_excluded_entries device inside) added in
    elim (Bool-cases (is_passed_over device st)) [
      | inl e ↦ rw e (count_excluded_entries-IsUncounted device rest c)
      | inr e ↦ rw e (
          IsUncounted-trans c added (count_excluded_entries device rest counted)
            (add_excluded-IsUncounted st content c)
            (IsUncounted-trans added counted (count_excluded_entries device rest counted)
              (within-IsUncounted st unreadable (count_excluded_entries device inside) added
                (count_excluded_entries-IsUncounted device inside))
              (count_excluded_entries-IsUncounted device rest counted)))
    ]

pub exclude-IsBalanced :
    (w : CaptureWalk) (child : Bytes) (st : Stat) (content : Bytes) (unreadable : Option Bytes)
    (inside : Entries) (d : CaptureDecision) (s : Sink)
    → IsBalanced 0 s (exclude w child st content unreadable inside d s)
unfolding exclude count_excluded_tree
exclude-IsBalanced w child st content unreadable inside d s =
    let added = add_excluded st content s.stats in
    let whole : IsUncounted s.stats
        (within st unreadable (count_excluded_entries w.project_device inside) added) =
      IsUncounted-trans s.stats added
        (within st unreadable (count_excluded_entries w.project_device inside) added)
        (add_excluded-IsUncounted st content s.stats)
        (within-IsUncounted st unreadable (count_excluded_entries w.project_device inside) added
          (count_excluded_entries-IsUncounted w.project_device inside)) in
    record { entries = omega (arith, whole.entries); content = omega (arith, whole.content) }
