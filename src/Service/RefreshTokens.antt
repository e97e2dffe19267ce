-- ===== src/Service/RefreshTokens.antt =====
-- internal/service/refresh_token.go: the opaque token and its hash. The codings of encoding/hex and
-- encoding/base64 are written out; SHA-256 is a parameter.
use taskflow_api.Base.{ℕ, ◌+◌, String, Option, List, [], ◌∷◌}
use taskflow_api.Domain.Errors.{Error, Result}
use taskflow_api.Store.{Env, Io, ◌>>=◌, return, map_err, wrap, rand_read}
use Prim.Native.Nat.{◌*◌, ◌/◌, ◌%◌}
use Prim.Native.String.{char_at}

abbrev hex_alphabet : String
hex_alphabet = "0123456789abcdef"

abbrev base64url_alphabet : String
base64url_alphabet = "ABCDEFGHIJKLMNOPQRSTUVWXYZabcdefghijklmnopqrstuvwxyz0123456789-_"

-- `hex.EncodeToString`
unfoldable pub hex : List ℕ → String
hex [] = ""
hex (b ∷ bs) =
    String.◌∷◌ (char_at hex_alphabet (b / 16)) (String.◌∷◌ (char_at hex_alphabet (b % 16)) (hex bs))

-- `base64.RawURLEncoding.EncodeToString`: three bytes are four digits, and there is no padding.
unfoldable pub base64url : List ℕ → String
base64url [] = ""
base64url (a ∷ []) =
    String.◌∷◌ (char_at base64url_alphabet (a / 4))
      (String.◌∷◌ (char_at base64url_alphabet (a % 4 * 16)) "")
base64url (a ∷ b ∷ []) = String.◌∷◌ (char_at base64url_alphabet (a / 4)) (
    String.◌∷◌ (char_at base64url_alphabet (a % 4 * 16 + b / 16))
      (String.◌∷◌ (char_at base64url_alphabet (b % 16 * 4)) ""))
base64url (a ∷ b ∷ c ∷ bs) = String.◌∷◌ (char_at base64url_alphabet (a / 4)) (
    String.◌∷◌ (char_at base64url_alphabet (a % 4 * 16 + b / 16)) (
      String.◌∷◌ (char_at base64url_alphabet (b % 16 * 4 + c / 64))
        (String.◌∷◌ (char_at base64url_alphabet (c % 64)) (base64url bs))))

-- golang.org/x/crypto/bcrypt, whose salt depends on the step, and crypto/sha256 of a text's bytes.
pub record Crypto : Type 0 where
  pub generate_from_password : ℕ → String → Result String
  pub compare_hash_and_password : String → String → Option Error
  pub sha256_sum : String → List ℕ

unfoldable pub hash_refresh_token : Crypto → String → String
hash_refresh_token crypto plaintext = hex (crypto.sha256_sum plaintext)

unfoldable pub generate_refresh_token : Env → Crypto → Io (String × String)
generate_refresh_token env crypto = do
  buf ← map_err (wrap "generate refresh token: ") (rand_read env 32)
  let plaintext = base64url buf
  return (plaintext, hash_refresh_token crypto plaintext)
