-- ===== src/Encryption/Crypto.antt =====
-- What the service takes of Node's crypto and Buffer.
use iveri_nest_sdk.Common.{ℕ, ◌≡◌, Option, some, length, List}
use iveri_nest_sdk.Common.Text.{Text}
use iveri_nest_sdk.Common.Text.Laws.{Lacks}

abbrev pub Bytes : Type 0
Bytes = List ℕ

abbrev pub encryption_key_bytes : ℕ
encryption_key_bytes = 32

abbrev pub encryption_iv_bytes : ℕ
encryption_iv_bytes = 12

abbrev pub encryption_auth_tag_bytes : ℕ
encryption_auth_tag_bytes = 16

-- `seal key iv` is an aes-256-gcm cipher's output and its tag of 16 bytes; `unseal key iv ciphertext
-- tag` is what a decipher gives, or `none` where it throws, at a key or a tag of the wrong length too.
pub record Crypto : Type 0 where
  pub seal : (key iv plaintext : Bytes) → Bytes × Bytes
  pub unseal : (key iv ciphertext tag : Bytes) → Option Bytes
  pub to_base64 : Bytes → Text
  pub from_base64 : Text → Bytes
  pub to_utf8 : Text → Bytes
  pub from_utf8 : Bytes → Text

-- What is documented of them: GCM decrypts exactly what it encrypts under the same key and nonce,
-- tags have the length that is asked for, and base64 is decoded to what was encoded and has no
-- full stop in its alphabet.
pub record IsCrypto (c : Crypto) : Type 0 where
  pub unseal-seal :
      (key iv plaintext : Bytes)
      → length key ≡ encryption_key_bytes
      → length iv ≡ encryption_iv_bytes
      → c.unseal key iv (c.seal key iv plaintext).0 (c.seal key iv plaintext).1 ≡ some plaintext
  pub seal-unseal :
      (key iv ciphertext tag plaintext : Bytes)
      → c.unseal key iv ciphertext tag ≡ some plaintext
      → c.seal key iv plaintext ≡ (ciphertext, tag)
  pub length-tag :
      (key iv plaintext : Bytes) → length (c.seal key iv plaintext).1 ≡ encryption_auth_tag_bytes
  pub base64_inverse : (b : Bytes) → c.from_base64 (c.to_base64 b) ≡ b
  pub base64_alphabet : (b : Bytes) → Lacks b'.' (c.to_base64 b)
