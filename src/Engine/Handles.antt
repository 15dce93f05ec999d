-- ===== src/Engine/Handles.antt =====
-- Open files: `open_handle`, `read_handle`, `write_handle`, `close_handle`, `read_file` and
-- `write_file` of src/core/workspace_engine.cpp.
use tribios_vfs.Common.{
  ℕ, ◌+◌, ◌-◌, Bool, true, false, List, [], ◌∷◌, ◌++◌, Bytes, codes, is_empty, length, take, drop,
  Option, none, some, ltb, ◌==◌, ◌&&◌, ◌||◌, not, if◌then◌else◌,
}
use tribios_vfs.Paths.{normalize_relative}
use tribios_vfs.Engine.Host.{
  Node, reg, is_dir, lstat, enoent, eexist, eisdir, ebadf, Host, host_reopen, host_read, Result, ok,
  fail,
}
use tribios_vfs.Engine.State.{Engine, OpenFlags, OpenHandle}
use tribios_vfs.Engine.Stage.{visible_node}
use tribios_vfs.Engine.Publish.{Status}
use tribios_vfs.Engine.Mutations.{operation_on, publish_at, stage_new, stage_edited, zeros}

-- The flags that make an open one for writing.
abbrev for_writing : OpenFlags → Bool
for_writing f = f.write_only || f.read_write || f.append || f.truncate || f.create

abbrev access_is_read_only : OpenFlags → Bool
access_is_read_only f = not (f.write_only || f.read_write)

-- The descriptor is opened on what the path shows, and the handle gets the next number.
unfoldable pub open_backing : Host → OpenFlags → Bytes → Engine → Result ℕ × Engine
open_backing h flags relative e =
    let opened : OpenHandle = record {
      backing = visible_node e relative;
      flags = flags;
      relative = relative;
    } in
    if h.fault host_reopen == 0
    then (
      ok e.next_handle,
      record e { handles = (e.next_handle, opened) ∷ e.handles; next_handle = e.next_handle + 1 },
    )
    else (fail (h.fault host_reopen), e)

-- The rest of an open, after an operation that may have failed.
unfoldable pub open_after : Host → OpenFlags → Bytes → Status × Engine → Result ℕ × Engine
open_after h flags relative (fail c, e) = (fail c, e)
open_after h flags relative (ok u, e) = open_backing h flags relative e

-- The O_TRUNC step, and the open.
unfoldable pub open_truncated : Host → OpenFlags → Bytes → Status × Engine → Result ℕ × Engine
open_truncated h flags relative (fail c, e) = (fail c, e)
open_truncated h flags relative (ok u, e) =
    let emptied = λ (n : Node). record n { body = []; mtime = h.clock } in
    let cut =
      publish_at h relative (operation_on (codes "truncate") relative e)
        (stage_edited h emptied relative) e in
    if flags.truncate
    then open_after h flags relative cut
    else open_after h flags relative (ok u, e)

unfoldable pub open_node : Host → OpenFlags → Bytes → Engine → Option Node → Result ℕ × Engine
open_node h flags relative e none =
    let made =
      publish_at h relative (operation_on (codes "create") relative e)
        (stage_new h reg (h.created_mode 0o644) [] relative) e in
    if not flags.create then (fail enoent, e) else open_truncated h flags relative made
open_node h flags relative e (some n) =
    if is_dir n.kind
    then (fail eisdir, e)
    else if flags.create && flags.exclusive
    then (fail eexist, e)
    else open_truncated h flags relative (ok tt, e)

unfoldable pub open_handle : Host → Bytes → OpenFlags → Engine → Result ℕ × Engine
open_handle h path flags e =
    let relative = normalize_relative path in
    if is_empty relative
    then (fail eisdir, e)
    else open_node h flags relative e (visible_node e relative)

unfoldable pub find_handle : ℕ → List (ℕ × OpenHandle) → Option OpenHandle
find_handle fd [] = none
find_handle fd ((i, o) ∷ hs) = if i == fd then some o else find_handle fd hs

unfoldable pub drop_handle : ℕ → List (ℕ × OpenHandle) → List (ℕ × OpenHandle)
drop_handle fd [] = []
drop_handle fd ((i, o) ∷ hs) =
    let rest = drop_handle fd hs in if i == fd then rest else (i, o) ∷ rest

-- pread.
unfoldable pub bytes_at : ℕ → ℕ → Bytes → Bytes
bytes_at size offset body = take size (drop offset body)

unfoldable pub read_backing : Host → ℕ → ℕ → Option Node → Result Bytes
read_backing h size offset none = fail ebadf
read_backing h size offset (some n) =
    if h.fault host_read == 0 then ok (bytes_at size offset n.body) else fail (h.fault host_read)

unfoldable pub read_open : Host → ℕ → ℕ → Option OpenHandle → Result Bytes
read_open h size offset none = fail ebadf
read_open h size offset (some o) = read_backing h size offset o.backing

unfoldable pub read_handle : Host → ℕ → ℕ → ℕ → Engine → Result Bytes
read_handle h fd size offset e = read_open h size offset (find_handle fd e.handles)

-- pwrite: the bytes take the place of those at the offset, behind zeros where the file is shorter.
unfoldable pub overlay : ℕ → Bytes → Bytes → Bytes
overlay offset bytes body =
    if is_empty bytes
    then body
    else (take offset body ++ zeros (offset - length body))
      ++ (bytes ++ drop (offset + length bytes) body)

-- How many bytes the write takes.
unfoldable pub accepted : Host → Bytes → ℕ
accepted h buffer =
    if ltb (h.written (length buffer)) (length buffer)
    then h.written (length buffer)
    else length buffer

-- The descriptor is opened anew on the upper file.
unfoldable pub set_backing : ℕ → Option Node → List (ℕ × OpenHandle) → List (ℕ × OpenHandle)
set_backing fd n [] = []
set_backing fd n ((i, o) ∷ hs) =
    let rest = set_backing fd n hs in
    if i == fd then (i, record o { backing = n }) ∷ rest else (i, o) ∷ rest

unfoldable pub reopen_backing : Host → ℕ → Bytes → ℕ → Status × Engine → Result ℕ × Engine
reopen_backing h fd relative n (fail c, e) = (fail c, e)
reopen_backing h fd relative n (ok u, e) =
    if h.fault host_reopen == 0
    then (ok n, record e { handles = set_backing fd (lstat e.upper relative) e.handles })
    else (fail (h.fault host_reopen), record e { handles = set_backing fd none e.handles })

unfoldable pub write_open : Host → ℕ → Bytes → ℕ → Engine → Option OpenHandle → Result ℕ × Engine
write_open h fd buffer offset e none = (fail ebadf, e)
write_open h fd buffer offset e (some o) =
    let n = accepted h buffer in
    let changed =
      λ (m : Node). record m { body = overlay offset (take n buffer) m.body; mtime = h.clock } in
    let published =
      publish_at h o.relative (operation_on (codes "write") o.relative e)
        (stage_edited h changed o.relative) e in
    if access_is_read_only o.flags
    then (fail ebadf, e)
    else reopen_backing h fd o.relative n published

unfoldable pub write_handle : Host → ℕ → Bytes → ℕ → Engine → Result ℕ × Engine
write_handle h fd buffer offset e = write_open h fd buffer offset e (find_handle fd e.handles)

unfoldable pub close_handle : ℕ → Engine → Engine
close_handle fd e = record e { handles = drop_handle fd e.handles }

unfoldable pub read_and_close : Host → ℕ → ℕ → Result ℕ × Engine → Result Bytes × Engine
read_and_close h size offset (fail c, e) = (fail c, e)
read_and_close h size offset (ok fd, e) = (read_handle h fd size offset e, close_handle fd e)

abbrev read_flags : OpenFlags
read_flags = record {
  write_only = false;
  read_write = false;
  append = false;
  create = false;
  exclusive = false;
  truncate = false;
}

unfoldable pub read_file : Host → Bytes → ℕ → ℕ → Engine → Result Bytes × Engine
read_file h path size offset e = read_and_close h size offset (open_handle h path read_flags e)

unfoldable pub close_written : ℕ → Result ℕ × Engine → Result ℕ × Engine
close_written fd (r, e) = (r, close_handle fd e)

unfoldable pub write_and_close : Host → Bytes → ℕ → Result ℕ × Engine → Result ℕ × Engine
write_and_close h bytes offset (fail c, e) = (fail c, e)
write_and_close h bytes offset (ok fd, e) = close_written fd (write_handle h fd bytes offset e)

unfoldable pub write_file : Host → Bytes → Bytes → ℕ → Engine → Result ℕ × Engine
write_file h path bytes offset e =
    write_and_close h bytes offset
      (open_handle h path (record read_flags { read_write = true; create = true }) e)
