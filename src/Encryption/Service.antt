-- ===== src/Encryption/Service.antt =====
-- src/encryption/encryption.service.ts. The random bytes are arguments; that a data key is
-- overwritten after its use is not modelled.
use Prim.Native.String.{String}
use iveri_nest_sdk.Common.{
  ℕ, ◌-◌, Bool, false, not, ◌||◌, ltb, ◌==◌, Option, none, some, List, [], ◌∷◌, ◌++◌, ◌⊎◌, inl, inr,
  length, take, drop, if◌then◌else◌,
}
use iveri_nest_sdk.Common.Text.{Text, codes, text_eq, split, join}
use iveri_nest_sdk.Encryption.Crypto.{
  Bytes, Crypto, encryption_key_bytes, encryption_auth_tag_bytes,
}

abbrev pub envelope_version : Text
envelope_version = codes "v1"

abbrev pub envelope_separator : ℕ
envelope_separator = b'.'

-- `InternalException`, with its message.
abbrev pub InternalException : Type 0
InternalException = String

-- The bytes that one call of `encrypt` draws.
pub record Drawn : Type 0 where
  pub data_key : Bytes
  pub iv : Bytes
  pub wrap_iv : Bytes

pub record Wrapped : Type 0 where
  pub iv : Bytes
  pub key : Bytes
  pub auth_tag : Bytes

-- `===` on texts, for bytes.
abbrev bytes_eq : Bytes → Bytes → Bool
bytes_eq = text_eq

-- The `catch` of both decryptions.
abbrev pub or_changed_key : Option Bytes → InternalException ⊎ Bytes
or_changed_key none = inl "Stored secret could not be decrypted — ENCRYPTION_KEY may have changed"
or_changed_key (some bytes) = inr bytes

abbrev pub map_inr {ℓ} : {A B C : Type ℓ} → (B → C) → A ⊎ B → A ⊎ C
map_inr f (inl a) = inl a
map_inr f (inr b) = inr (f b)

module _ (crypto : Crypto) where
  -- Fails the boot if the configured key is no 32 bytes in base64.
  unfoldable pub read_master_key : Option Text → Option Bytes
  read_master_key none = none
  read_master_key (some encoded) =
      let key = crypto.from_base64 encoded in
      if not (length key == encryption_key_bytes) || not (text_eq (crypto.to_base64 key) encoded)
      then none
      else some key

  unfoldable pub wrap_data_key : (master_key data_key iv : Bytes) → Wrapped
  wrap_data_key master_key data_key iv =
      let sealed = crypto.seal master_key iv data_key in
      record { iv = iv; key = sealed.0; auth_tag = sealed.1 }

  unfoldable pub unwrap_data_key : (master_key : Bytes) → Wrapped → InternalException ⊎ Bytes
  unwrap_data_key master_key wrapped =
      or_changed_key (crypto.unseal master_key wrapped.iv wrapped.key wrapped.auth_tag)

  unfoldable pub encrypt : (master_key : Bytes) → Drawn → Text → Text
  unfolding wrap_data_key
  encrypt master_key drawn plaintext =
      let sealed = crypto.seal drawn.data_key drawn.iv (crypto.to_utf8 plaintext) in
      let wrapped = wrap_data_key master_key drawn.data_key drawn.wrap_iv in
      join envelope_separator (
        envelope_version
        ∷ crypto.to_base64 wrapped.iv
        ∷ crypto.to_base64 wrapped.key
        ∷ crypto.to_base64 wrapped.auth_tag
        ∷ crypto.to_base64 drawn.iv
        ∷ crypto.to_base64 (sealed.0 ++ sealed.1)
        ∷ [])

  -- The `try` of `decrypt`: the tag is the last 16 bytes.
  unfoldable pub open_payload : (data_key iv ciphertext_with_tag : Bytes) → InternalException ⊎ Text
  open_payload data_key iv ciphertext_with_tag =
      if ltb (length ciphertext_with_tag) encryption_auth_tag_bytes
      then inl "Stored secret is truncated"
      else let boundary = length ciphertext_with_tag - encryption_auth_tag_bytes in
        map_inr crypto.from_utf8 (
          or_changed_key (
            crypto.unseal data_key iv (take boundary ciphertext_with_tag)
              (drop boundary ciphertext_with_tag)))

  unfoldable pub open_with :
      (iv ciphertext_with_tag : Bytes) → InternalException ⊎ Bytes → InternalException ⊎ Text
  unfolding open_payload
  open_with iv ciphertext_with_tag (inl error) = inl error
  open_with iv ciphertext_with_tag (inr data_key) = open_payload data_key iv ciphertext_with_tag

  unfoldable pub decrypt_parts : (master_key : Bytes) → List Text → InternalException ⊎ Text
  unfolding unwrap_data_key open_with
  decrypt_parts master_key (version ∷ wrap_iv ∷ wrapped_key ∷ wrap_tag ∷ iv ∷ payload ∷ []) =
      if not (text_eq version envelope_version)
      then inl "Stored secret is not a recognised encryption envelope"
      else open_with (crypto.from_base64 iv) (crypto.from_base64 payload) (
          unwrap_data_key master_key (record {
            iv = crypto.from_base64 wrap_iv;
            key = crypto.from_base64 wrapped_key;
            auth_tag = crypto.from_base64 wrap_tag;
          }))
  decrypt_parts master_key _ = inl "Stored secret is not a recognised encryption envelope"

  unfoldable pub decrypt : (master_key : Bytes) → Text → InternalException ⊎ Text
  unfolding decrypt_parts
  decrypt master_key envelope = decrypt_parts master_key (split envelope_separator envelope)

  -- `timingSafeEqual` compares two buffers of one length.
  unfoldable pub secrets_match : Text → Text → Bool
  secrets_match left right =
      if not (length (crypto.to_utf8 left) == length (crypto.to_utf8 right))
      then false
      else bytes_eq (crypto.to_utf8 left) (crypto.to_utf8 right)
