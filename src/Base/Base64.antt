-- ===== src/Base/Base64.antt =====
-- base64.RawURLEncoding.EncodeToString: six bits to a character, with no padding.
use Prim.Native.String.{◌++◌ as append, slice}
use godotnet.Base.Lists.{Bytes}
use Prim.Native.Nat.{ℕ, ◌+◌, ◌*◌, ◌/◌, ◌%◌}
use Prim.Native.String.{String}
use mathlib.Core.List.{[], ◌∷◌}
use mathlib.Core.Path.{◌≡◌, refl}

character : ℕ → String
character n = slice "ABCDEFGHIJKLMNOPQRSTUVWXYZabcdefghijklmnopqrstuvwxyz0123456789-_" n (n + 1)

unfoldable pub base64 : Bytes → String
unfolding character
base64 [] = ""
base64 (a ∷ []) = append (character (a / 4)) (character (a % 4 * 16))
base64 (a ∷ b ∷ []) =
    append (character (a / 4)) (append (character (a % 4 * 16 + b / 16)) (character (b % 16 * 4)))
base64 (a ∷ b ∷ c ∷ rest) = append (character (a / 4)) (
    append (character (a % 4 * 16 + b / 16))
      (append (character (b % 16 * 4 + c / 64)) (append (character (c % 64)) (base64 rest))))

base64_text : base64 (0x4d ∷ 0x61 ∷ 0x6e ∷ 0xfb ∷ []) ≡ "TWFu-w"
unfolding base64
base64_text = refl
