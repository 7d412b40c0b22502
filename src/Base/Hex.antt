-- ===== src/Base/Hex.antt =====
-- `bytes.hex` and `bytes.fromhex`.
use Prim.Native.Nat.{ℕ, ◌+◌, ◌-◌, ◌*◌, ◌/◌, ◌%◌, ◌<◌}
use mathlib.Core.Path.{◌≡◌, refl, ap}
use mathlib.Core.Bool.{Bool, false, ◌&&◌, ◌||◌}
use mathlib.Core.Option.{Option, none, some}
use mathlib.Core.List.{[], ◌∷◌}
use native.Mathlib.Omega.{arith}
use agent_authorization_gate.Base.Tests.{ltb, leb, ◌==◌, if◌then◌else◌}
use agent_authorization_gate.Base.Lists.{All}
use agent_authorization_gate.Base.Text.{Str, Bytes}

unfoldable pub hex_digit : ℕ → ℕ
hex_digit n = if ltb n 10 then b'0' + n else b'a' + (n - 10)

-- `b.hex()`
unfoldable pub hex : Bytes → Str
unfolding hex_digit
hex [] = []
hex (b ∷ bs) = hex_digit (b / 16) ∷ hex_digit (b % 16) ∷ hex bs

unfoldable pub unhex : ℕ → Option ℕ
unhex c =
    if leb b'0' c && leb c b'9'
    then some (c - b'0')
    else if leb b'a' c && leb c b'f'
    then some (c - b'a' + 10)
    else if leb b'A' c && leb c b'F'
    then some (c - b'A' + 10)
    else none

-- ASCII white space, which `fromhex` skips between bytes.
unfoldable pub is_space : ℕ → Bool
is_space c = c == 32 || (leb 9 c && leb c 13)

unfoldable pub join_byte : Option ℕ → Option ℕ → Option Bytes → Option Bytes
join_byte (some h) (some l) (some bs) = some ((h * 16 + l) ∷ bs)
join_byte _ _ _ = none

-- `bytes.fromhex(s)`; `none` is its ValueError.
unfoldable pub from_hex : Str → Option Bytes
unfolding unhex is_space join_byte
from_hex [] = some []
from_hex (c ∷ []) = if is_space c then some [] else none
from_hex (c ∷ d ∷ s) =
    let skip = from_hex (d ∷ s) in
    let pair = join_byte (unhex c) (unhex d) (from_hex s) in if is_space c then skip else pair

unhex-hex_digit : (n : ℕ) → n < 16 → unhex (hex_digit n) ≡ some n
unfolding unhex hex_digit
unhex-hex_digit n h = ground arith

is_space-hex_digit : (n : ℕ) → n < 16 → is_space (hex_digit n) ≡ false
unfolding is_space hex_digit
is_space-hex_digit n h = ground arith

byte_parts : (b : ℕ) → b < 256 → b / 16 * 16 + b % 16 ≡ b
byte_parts b h = omega arith

from_hex-pair :
    (c d : ℕ) (s : Str)
    → is_space c ≡ false
    → from_hex (c ∷ d ∷ s) ≡ join_byte (unhex c) (unhex d) (from_hex s)
from_hex-pair c d s h = unfold from_hex in rw h

from_hex-nil : from_hex [] ≡ some []
unfolding from_hex
from_hex-nil = refl

-- Reading back what `hex` printed gives the same bytes.
pub from_hex-hex : (bs : Bytes) → All (λ b. b < 256) bs → from_hex (hex bs) ≡ some bs
unfolding hex join_byte
from_hex-hex [] h = from_hex-nil
from_hex-hex (b ∷ bs) h = rw (from_hex-pair _ _ _ (is_space-hex_digit (b / 16) (omega arith))) (
    rw
      (
        unhex-hex_digit (b / 16) (omega arith),
        unhex-hex_digit (b % 16) (omega arith),
        from_hex-hex bs h.1,
      )
      (ap (λ (x : ℕ). some (x ∷ bs)) (byte_parts b h.0)))
