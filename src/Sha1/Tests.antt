-- ===== src/Sha1/Tests.antt =====
-- The digest of "abc", as FIPS 180 gives it.
use tribios_vfs.Sha1.{sha1_digest}
use tribios_vfs.Common.{codes, ◌≡◌, refl, ◌∷◌, [], Bytes}

t : Bytes
unfolding sha1_digest
t = sha1_digest (codes "abc")

digest_of_abc :
    t
    ≡ 0xa9 ∷ 0x99 ∷ 0x3e ∷ 0x36 ∷ 0x47 ∷ 0x06 ∷ 0x81 ∷ 0x6a ∷ 0xba ∷ 0x3e ∷ 0x25 ∷ 0x71 ∷ 0x78
      ∷ 0x50 ∷ 0xc2 ∷ 0x6c ∷ 0x9c ∷ 0xd0 ∷ 0xd8 ∷ 0x9d ∷ []
unfolding t
digest_of_abc = refl
