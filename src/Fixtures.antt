-- ===== src/Fixtures.antt =====
-- Test data shared by the tests of several components: a small hash function with 32-byte digests.
use agent_authorization_gate.Base.{
  ℕ, zero, suc, ◌+◌, ◌%◌, [], ◌∷◌, Bytes, arith, ◌*◌, Str, if◌then◌else◌, leb, ◌&&◌,
}
use agent_authorization_gate.Merkle.Digest.{IsDigest}

abbrev checksum : Bytes → ℕ
checksum [] = 7
checksum (b ∷ bs) = (b + 3 * checksum bs) % 256

abbrev repeat : ℕ → ℕ → Bytes
repeat zero b = []
repeat (suc n) b = b ∷ repeat n b

abbrev pub toy_hash : Bytes → Bytes
toy_hash b = repeat 32 (checksum b % 256)

pub toy_hash-IsDigest : IsDigest toy_hash
toy_hash-IsDigest = record { size = λ b. omega arith; bytes = λ b. omega arith }

-- `str.lower` on ASCII texts.
abbrev pub ascii_lower : Str → Str
ascii_lower [] = []
ascii_lower (c ∷ s) = (if leb b'A' c && leb c b'Z' then c + 32 else c) ∷ ascii_lower s
