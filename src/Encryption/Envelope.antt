-- ===== src/Encryption/Envelope.antt =====
-- What an envelope is, and that it gives back the secret.
use iveri_nest_sdk.Common.{
  ◌≡◌, refl, ap, ◌∙◌, ◌+◌, ◌-◌, false, not, ltb, Option, none, some, List, [], ◌∷◌, ◌++◌, ◌⊎◌, inl,
  inr, inl-is_no-inr, passed, inr-injective, length, length-append, take, drop, take-append,
  drop-append, take-drop, arith,
}
use iveri_nest_sdk.Common.Text.{Text, text_eq, text_eq_sound, split}
use iveri_nest_sdk.Common.Text.Laws.{Lacks, split-join}
use iveri_nest_sdk.Encryption.Crypto.{
  Bytes, Crypto, IsCrypto, encryption_key_bytes, encryption_iv_bytes,
}
use iveri_nest_sdk.Encryption.Service.{
  envelope_version, envelope_separator, InternalException, Drawn, wrap_data_key, unwrap_data_key,
  encrypt, or_changed_key, map_inr, open_payload, open_with, decrypt_parts, decrypt,
}

module _ (crypto : Crypto) (laws : IsCrypto crypto) where
  -- Six fields after the version and one another by full stops: a data key sealed under the master
  -- key, and under that the secret.
  pub record IsEnvelope (master_key : Bytes) (envelope plaintext : Text) : Type 0 where
    pub wrap_iv : Text
    pub wrapped_key : Text
    pub wrap_tag : Text
    pub iv : Text
    pub payload : Text
    pub is_split :
        split envelope_separator envelope
        ≡ envelope_version ∷ wrap_iv ∷ wrapped_key ∷ wrap_tag ∷ iv ∷ payload ∷ []
    pub data_key : Bytes
    pub is_wrapped :
        crypto.seal master_key (crypto.from_base64 wrap_iv) data_key
        ≡ (crypto.from_base64 wrapped_key, crypto.from_base64 wrap_tag)
    pub secret : Bytes
    pub is_sealed :
        (crypto.seal data_key (crypto.from_base64 iv) secret).0
          ++ (crypto.seal data_key (crypto.from_base64 iv) secret).1
        ≡ crypto.from_base64 payload
    pub is_text : crypto.from_utf8 secret ≡ plaintext

  open_payload-seal :
      (data_key iv secret : Bytes)
      → length data_key ≡ encryption_key_bytes
      → length iv ≡ encryption_iv_bytes
      → open_payload crypto data_key iv
          ((crypto.seal data_key iv secret).0 ++ (crypto.seal data_key iv secret).1)
        ≡ inr (crypto.from_utf8 secret)
  unfolding open_payload
  open_payload-seal data_key iv secret k n =
      let (text, tag) = crypto.seal data_key iv secret in
      let whole : length (text ++ tag) ≡ length text + 16 =
        length-append text tag ∙ ap (λ r. length text + r) (laws.length-tag data_key iv secret) in
      let long : ltb (length (text ++ tag)) 16 ≡ false = ground (arith, whole) in
      let boundary : length (text ++ tag) - 16 ≡ length text = ground (arith, whole) in
      rw (long, boundary, take-append text tag, drop-append text tag)
        (ap (λ o. map_inr crypto.from_utf8 (or_changed_key o))
          (laws.unseal-seal data_key iv secret k n))

  unwrap-wrap :
      (master_key data_key iv : Bytes)
      → length master_key ≡ encryption_key_bytes
      → length iv ≡ encryption_iv_bytes
      → unwrap_data_key crypto master_key (wrap_data_key crypto master_key data_key iv)
        ≡ inr data_key
  unfolding unwrap_data_key wrap_data_key
  unwrap-wrap master_key data_key iv k n =
      ap or_changed_key (laws.unseal-seal master_key iv data_key k n)

  version_Lacks : Lacks envelope_separator envelope_version
  version_Lacks = ground arith

  -- The fields of an envelope that was just made.
  fields_of : Bytes → Drawn → Text → List Text
  fields_of master_key drawn plaintext =
      let sealed = crypto.seal drawn.data_key drawn.iv (crypto.to_utf8 plaintext) in
      let wrapped = wrap_data_key crypto master_key drawn.data_key drawn.wrap_iv in
      crypto.to_base64 wrapped.iv
      ∷ crypto.to_base64 wrapped.key
      ∷ crypto.to_base64 wrapped.auth_tag
      ∷ crypto.to_base64 drawn.iv
      ∷ crypto.to_base64 (sealed.0 ++ sealed.1)
      ∷ []

  split-encrypt :
      (master_key : Bytes) (drawn : Drawn) (plaintext : Text)
      → split envelope_separator (encrypt crypto master_key drawn plaintext)
        ≡ envelope_version ∷ fields_of master_key drawn plaintext
  unfolding encrypt fields_of
  split-encrypt master_key drawn plaintext =
      let plain = laws.base64_alphabet in
      split-join envelope_separator envelope_version (fields_of master_key drawn plaintext)
        (version_Lacks, (plain _, (plain _, (plain _, (plain _, (plain _, tt))))))

  decrypt_fields :
      (master_key : Bytes) (drawn : Drawn) (plaintext : Text)
      → length master_key ≡ encryption_key_bytes
      → length drawn.data_key ≡ encryption_key_bytes
      → length drawn.iv ≡ encryption_iv_bytes
      → length drawn.wrap_iv ≡ encryption_iv_bytes
      → decrypt_parts crypto master_key (envelope_version ∷ fields_of master_key drawn plaintext)
        ≡ inr (crypto.from_utf8 (crypto.to_utf8 plaintext))
  unfolding decrypt_parts fields_of open_with wrap_data_key
  decrypt_fields master_key drawn plaintext mk dk iv wiv =
      let back = laws.base64_inverse in
      rw
        (
          back drawn.wrap_iv,
          back (wrap_data_key crypto master_key drawn.data_key drawn.wrap_iv).key,
          back (wrap_data_key crypto master_key drawn.data_key drawn.wrap_iv).auth_tag,
          back drawn.iv,
          back (
              (crypto.seal drawn.data_key drawn.iv (crypto.to_utf8 plaintext)).0
              ++ (crypto.seal drawn.data_key drawn.iv (crypto.to_utf8 plaintext)).1),
        )
        (ap (open_with crypto drawn.iv _)
            (unwrap-wrap master_key drawn.data_key drawn.wrap_iv mk wiv)
          ∙ open_payload-seal drawn.data_key drawn.iv (crypto.to_utf8 plaintext) dk iv)

  -- What is encrypted under a master key of 32 bytes is decrypted under it, whatever the secret, if
  -- it is well-formed text, and whatever key of 32 bytes and nonces of 12 bytes were drawn.
  pub decrypt-encrypt :
      (master_key : Bytes) (drawn : Drawn) (plaintext : Text)
      → length master_key ≡ encryption_key_bytes
      → length drawn.data_key ≡ encryption_key_bytes
      → length drawn.iv ≡ encryption_iv_bytes
      → length drawn.wrap_iv ≡ encryption_iv_bytes
      → crypto.from_utf8 (crypto.to_utf8 plaintext) ≡ plaintext
      → decrypt crypto master_key (encrypt crypto master_key drawn plaintext) ≡ inr plaintext
  unfolding decrypt
  decrypt-encrypt master_key drawn plaintext mk dk iv wiv text =
      ap (decrypt_parts crypto master_key) (split-encrypt master_key drawn plaintext)
      ∙ decrypt_fields master_key drawn plaintext mk dk iv wiv
      ∙ ap inr text

  key-inr : (o : Option Bytes) (bytes : Bytes) → or_changed_key o ≡ inr bytes → o ≡ some bytes
  key-inr none bytes h = absurd (inl-is_no-inr h)
  key-inr (some b) bytes h = ap some (inr-injective h)

  mapped :
      (s : InternalException ⊎ Bytes) (plaintext : Text)
      → map_inr crypto.from_utf8 s ≡ inr plaintext
      → (secret : Bytes) × (s ≡ inr secret) × (crypto.from_utf8 secret ≡ plaintext)
  mapped (inl error) plaintext h = absurd (inl-is_no-inr h)
  mapped (inr secret) plaintext h = (secret, refl, inr-injective h)

  opened :
      (data_key iv payload : Bytes) (plaintext : Text)
      → open_payload crypto data_key iv payload ≡ inr plaintext
      → (secret : Bytes) × ((crypto.seal data_key iv secret).0 ++ (crypto.seal data_key iv secret).1
          ≡ payload)
        × (crypto.from_utf8 secret ≡ plaintext)
  unfolding open_payload
  opened data_key iv payload plaintext h =
      let boundary = length payload - 16 in
      let (secret, e, text) =
        mapped _ plaintext
          (passed (ltb (length payload) 16) "Stored secret is truncated" _ plaintext h).1 in
      let sealed =
        laws.seal-unseal data_key iv (take boundary payload) (drop boundary payload) secret
          (key-inr _ secret e) in
      (secret, ap (λ s. s.0 ++ s.1) sealed ∙ take-drop boundary payload, text)

  unwrapped :
      (iv payload : Bytes) (s : InternalException ⊎ Bytes) (plaintext : Text)
      → open_with crypto iv payload s ≡ inr plaintext
      → (data_key : Bytes) × (s ≡ inr data_key)
        × (open_payload crypto data_key iv payload ≡ inr plaintext)
  unfolding open_with
  unwrapped iv payload (inl error) plaintext h = absurd (inl-is_no-inr h)
  unwrapped iv payload (inr data_key) plaintext h = (data_key, refl, h)

  parts-IsEnvelope :
      (master_key : Bytes) (envelope plaintext : Text) (parts : List Text)
      → split envelope_separator envelope ≡ parts
      → decrypt_parts crypto master_key parts ≡ inr plaintext
      → IsEnvelope master_key envelope plaintext
  unfolding decrypt_parts unwrap_data_key
  parts-IsEnvelope master_key envelope plaintext (v ∷ a ∷ b ∷ c ∷ d ∷ e ∷ []) is_split h =
      let (version, rest) =
        passed (not (text_eq v envelope_version))
          "Stored secret is not a recognised encryption envelope" _ plaintext h in
      let (data_key, unlocked, inner) =
        unwrapped (crypto.from_base64 d) (crypto.from_base64 e) _ plaintext rest in
      let (secret, sealed, text) =
        opened data_key (crypto.from_base64 d) (crypto.from_base64 e) plaintext inner in
      record {
        wrap_iv = a;
        wrapped_key = b;
        wrap_tag = c;
        iv = d;
        payload = e;
        is_split =
            is_split
            ∙ ap (λ w. w ∷ a ∷ b ∷ c ∷ d ∷ e ∷ [])
                (text_eq_sound v envelope_version (ground (arith, version)));
        data_key = data_key;
        is_wrapped =
            laws.seal-unseal master_key (crypto.from_base64 a) (crypto.from_base64 b)
              (crypto.from_base64 c) data_key (key-inr _ data_key unlocked);
        secret = secret;
        is_sealed = sealed;
        is_text = text;
      }
  parts-IsEnvelope master_key envelope plaintext _ is_split h = absurd (inl-is_no-inr h)

  -- Only what is sealed under the master key is ever decrypted: whatever `decrypt` gives a text for
  -- is an envelope of that text.
  pub decrypt-IsEnvelope :
      (master_key : Bytes) (envelope plaintext : Text)
      → decrypt crypto master_key envelope ≡ inr plaintext
      → IsEnvelope master_key envelope plaintext
  unfolding decrypt
  decrypt-IsEnvelope master_key envelope plaintext h =
      parts-IsEnvelope master_key envelope plaintext (split envelope_separator envelope) refl h
