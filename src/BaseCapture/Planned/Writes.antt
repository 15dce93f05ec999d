-- ===== src/BaseCapture/Planned/Writes.antt =====
-- The writes of a capture of src/core/base_capture.cpp, which a dry run leaves out.
use tribios_vfs.Common.{
  codes, ◌++◌, ℕ, ◌+◌, true, [], Bytes, Option, none, some, ◌≡◌, refl, ap, Bool-cases, inl, inr,
  ◌⊎◌,
}
use tribios_vfs.Store.Sql.{ok, error}
use tribios_vfs.BaseCapture.{Stat, CaptureStats, Disk, CaptureWalk, Sink}
use tribios_vfs.CapturePolicy.Describe.{capture_policy_file_name}
use tribios_vfs.BaseCapture.Walk.{
  Captured, and_then, save, add_entry, add_bytes, capture_link, create_directory, copied,
  write_compiled_policy,
}

-- The same counts, and nothing written by the second.
abbrev pub IsSame : Sink → Sink → Type 0
IsSame s t = (s.stats ≡ t.stats) × (t.base ≡ [])

-- The error `m` of a capture into `base` is that of a step which a dry run leaves out, and the disk fails
-- that step. A copy fails where the file cannot be read or its copy not be written.
pub data StepFails (d : Disk) (base m : Bytes) : Type 0 where
  making_base :
      d.base_fails ≡ true → m ≡ codes "base capture: cannot create " ++ base → StepFails d base m
  writing_policy :
      d.policy_write_fails ≡ true
      → m ≡ codes "base capture: cannot write " ++ (base ++ codes "/" ++ capture_policy_file_name)
      → StepFails d base m
  setting_policy_mode :
      d.policy_chmod_fails ≡ true
      → m
        ≡ codes "base capture: cannot preserve policy permissions "
          ++ (base ++ codes "/" ++ capture_policy_file_name)
      → StepFails d base m
  making_link :
      (p : Bytes)
      → d.link_fails p ≡ true
      → m ≡ codes "base capture: cannot recreate symlink " ++ p
      → StepFails d base m
  making_directory :
      (p : Bytes)
      → d.directory_fails p ≡ true
      → m ≡ codes "base capture: cannot create " ++ base ++ codes "/" ++ p
      → StepFails d base m
  copying_file :
      (p e : Bytes)
      → d.copy_error p ≡ some e
      → m ≡ codes "base capture: cannot copy " ++ p ++ codes ": " ++ e
      → StepFails d base m

-- Where the capture goes on, so does the dry run, with the same counts. Where the capture stops, the
-- error is that of a step which the dry run leaves out, or the dry run stops at it too.
abbrev pub IsPlanned : Disk → Bytes → Captured → Captured → Type 0
IsPlanned d base (error m, s) q = StepFails d base m ⊎ (q.0 ≡ error m)
IsPlanned d base (ok u, s) (error m, t) = ⊥
IsPlanned d base (ok u, s) (ok v, t) = IsSame s t

pub and_then-IsPlanned :
    (d : Disk) (base : Bytes) (r q : Captured) (f g : Sink → Captured)
    → IsPlanned d base r q
    → ((s t : Sink) → IsSame s t → IsPlanned d base (f s) (g t))
    → IsPlanned d base (and_then r f) (and_then q g)
unfolding and_then
and_then-IsPlanned d base (error m, s) q f g (inl x) h = inl x
and_then-IsPlanned d base (error m, s) (error n, t) f g (inr e) h = inr e
and_then-IsPlanned d base (error m, s) (ok v, t) f g (inr e) h = cc
and_then-IsPlanned d base (ok u, s) (error m, t) f g p h = absurd p
and_then-IsPlanned d base (ok u, s) (ok v, t) f g p h = h s t p

pub add_entry-IsSame : (s t : Sink) → IsSame s t → IsSame (add_entry s) (add_entry t)
unfolding add_entry
add_entry-IsSame s t e =
    (ap {A = CaptureStats} (λ c. record c { entry_count = c.entry_count + 1 }) e.0, e.1)

pub add_bytes-IsSame : (n : ℕ) (s t : Sink) → IsSame s t → IsSame (add_bytes n s) (add_bytes n t)
unfolding add_bytes
add_bytes-IsSame n s t e = (ap {A = CaptureStats} (λ c. record c { bytes = c.bytes + n }) e.0, e.1)

module _ (w : CaptureWalk) (base : Bytes) (s t : Sink) (e : IsSame s t) where
  pub capture_link-IsPlanned :
      (child target : Bytes)
      → IsPlanned w.disk base (capture_link w (some base) child target s) (ok tt, t)
  unfolding capture_link save
  capture_link-IsPlanned child target = elim (Bool-cases (w.disk.link_fails child)) [
    | inl f ↦ rw f (inl (making_link child f refl))
    | inr f ↦ rw f e
  ]

  pub create_directory-IsPlanned :
      (child : Bytes) (st : Stat)
      → IsPlanned w.disk base (create_directory w (some base) child st s) (ok tt, t)
  unfolding create_directory save
  create_directory-IsPlanned child st = elim (Bool-cases (w.disk.directory_fails child)) [
    | inl f ↦ rw f (inl (making_directory child f refl))
    | inr f ↦ rw f e
  ]

  pub copied-IsPlanned :
      (child content : Bytes) (st : Stat) (f : Option Bytes)
      → w.disk.copy_error child ≡ f
      → IsPlanned w.disk base (copied w child content st f s) (ok tt, t)
  unfolding copied save
  copied-IsPlanned child content st none eq = e
  copied-IsPlanned child content st (some f) eq = inl (copying_file child f eq refl)

  pub write_compiled_policy-IsPlanned :
      IsPlanned w.disk base (write_compiled_policy w (some base) s) (ok tt, t)
  unfolding write_compiled_policy save
  write_compiled_policy-IsPlanned = elim (Bool-cases w.disk.policy_write_fails) [
    | inl f ↦ rw f (inl (writing_policy refl refl))
    | inr f ↦ rw f (elim (Bool-cases w.disk.policy_chmod_fails) [
      | inl g ↦ rw g (inl (setting_policy_mode refl refl))
      | inr g ↦ rw g e
    ])
  ]
