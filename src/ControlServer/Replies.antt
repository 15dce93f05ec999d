-- ===== src/ControlServer/Replies.antt =====
-- Replies and their texts in src/daemon/control_server.cpp.
use tribios_vfs.Common.{
  ℕ, suc, zero, ◌+◌, ◌-◌, ◌/◌, ◌%◌, ◌^◌, Bool, List, [], ◌∷◌, ◌++◌, Bytes, codes, get_or, to_string,
  ltb, ◌==◌, if◌then◌else◌,
}
use tribios_vfs.Store.Types.{Int64}
use tribios_vfs.Engine.Host.{ok, fail, Tree}
use tribios_vfs.Engine.Publish.{Status}

-- What the server uses of the C library, and the disk usage that the host reports of an upper tree.
pub record Libc : Type 0 where
  pub strerror : ℕ → Bytes
  pub strtoull : Bytes → ℕ → ℕ
  pub strtoll : Bytes → ℕ → ℕ
  pub upper_bytes : Tree → ℕ

-- A call of the handler that drops what the kernel cached.
pub record Change : Type 0 where
  pub workspace : Bytes
  pub path : Bytes
  pub unlinked : Bool

abbrev pub ControlReply : Type 0
ControlReply = List Bytes

unfoldable pub ok_reply : ControlReply → ControlReply
ok_reply payload = codes "OK" ∷ payload

unfoldable pub error_reply : Bytes → ControlReply
error_reply message = codes "ERR" ∷ message ∷ []

unfoldable pub errno_error_reply : Libc → ℕ → ControlReply
errno_error_reply libc code =
    codes "ERR" ∷ (codes "errno " ++ to_string code ++ codes " " ++ libc.strerror code) ∷ []

unfoldable pub filesystem_status_reply : Libc → Status → ControlReply
filesystem_status_reply libc (ok u) = ok_reply []
filesystem_status_reply libc (fail c) = errno_error_reply libc c

-- `std::oct`, for a number below 8 ^ fuel.
unfoldable pub octal : ℕ → ℕ → Bytes → Bytes
octal zero n after = after
octal (suc fuel) n after =
    let digit = n % 8 + b'0' in
    let more = octal fuel (n / 8) (digit ∷ after) in if ltb n 8 then digit ∷ after else more

-- The S_IFMT bits, and the permission bits, of which there are four octal digits.
unfoldable pub format_file_mode : ℕ → Bytes
unfolding octal
format_file_mode mode =
    let kind =
      if mode / 4096 % 16 == 4
      then codes "dir"
      else if mode / 4096 % 16 == 10
      then codes "symlink"
      else codes "file" in
    kind ++ codes " " ++ octal 4 (mode % 4096) []

-- A missing argument is an empty text.
unfoldable pub request_argument : List Bytes → ℕ → Bytes
request_argument request index = get_or request index []

-- `std::to_string` of a `std::int64_t`, on its 64-bit pattern.
unfoldable pub signed_text : Int64 → Bytes
signed_text n = if ltb n (2 ^ 63) then to_string n else codes "-" ++ to_string (2 ^ 64 - n)
