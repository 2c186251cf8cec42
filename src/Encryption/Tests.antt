-- ===== src/Encryption/Tests.antt =====
-- A toy cipher whose tag names the key, and witnesses.
use iveri_nest_sdk.Common.{
  ℕ, ◌≡◌, refl, sym, ap₂, ◌+◌, ◌-◌, false, Bool-cases, Option, none, some, [], ◌∷◌, map, inl, inr,
  take, arith, if◌then◌else◌,
}
use iveri_nest_sdk.Common.Text.{Text, codes, text_eq, text_eq_sound, text_eq_refl, split, join}
use iveri_nest_sdk.Common.Text.Laws.{Lacks}
use iveri_nest_sdk.Encryption.Crypto.{Bytes, Crypto, IsCrypto}
use iveri_nest_sdk.Encryption.Service.{
  Drawn, read_master_key, wrap_data_key, unwrap_data_key, encrypt, open_with, decrypt_parts,
  decrypt, secrets_match,
}
use iveri_nest_sdk.Encryption.Envelope.{IsEnvelope, decrypt-encrypt, decrypt-IsEnvelope}

abbrev mark : Bytes → ℕ
mark [] = 0
mark (k ∷ ks) = k

abbrev tag_of : Bytes → Bytes
tag_of key = mark key ∷ 0 ∷ 0 ∷ 0 ∷ 0 ∷ 0 ∷ 0 ∷ 0 ∷ 0 ∷ 0 ∷ 0 ∷ 0 ∷ 0 ∷ 0 ∷ 0 ∷ 0 ∷ []

abbrev shift : Bytes → Text
shift bs = map (λ b. b + 47) bs

abbrev unshift : Text → Bytes
unshift s = map (λ c. c - 47) s

abbrev toy_unseal : Bytes → Bytes → Bytes → Bytes → Option Bytes
toy_unseal key iv ciphertext tag = if text_eq tag (tag_of key) then some ciphertext else none

abbrev toy : Crypto
toy = record {
  seal = λ key iv plaintext. (plaintext, tag_of key);
  unseal = toy_unseal;
  to_base64 = shift;
  from_base64 = unshift;
  to_utf8 = λ s. s;
  from_utf8 = λ b. b;
}

unshift-shift : (b : Bytes) → unshift (shift b) ≡ b
unshift-shift [] = refl
unshift-shift (b ∷ bs) = ap₂ ◌∷◌ (omega arith) (unshift-shift bs)

shift-Lacks : (b : Bytes) → Lacks b'.' (shift b)
shift-Lacks [] = tt
shift-Lacks (b ∷ bs) = (ground arith, shift-Lacks bs)

opens :
    (key iv ciphertext tag plaintext : Bytes)
    → toy_unseal key iv ciphertext tag ≡ some plaintext
    → ◌≡◌ {A = Bytes × Bytes} (plaintext, tag_of key) (ciphertext, tag)
opens key iv ciphertext tag plaintext h = elim (Bool-cases (text_eq tag (tag_of key))) [
  | inl e ↦ ap₂ (λ a b. (a, b)) (ground (arith, h, e)) (sym (text_eq_sound tag (tag_of key) e))
  | inr e ↦ ground (arith, h, e)
]

toy_IsCrypto : IsCrypto toy
toy_IsCrypto = record {
  unseal-seal = λ key iv plaintext k n. rw (text_eq_refl (tag_of key)) refl;
  seal-unseal = opens;
  length-tag = λ key iv plaintext. refl;
  base64_inverse = unshift-shift;
  base64_alphabet = shift-Lacks;
}

abbrev zeros : ℕ → Bytes
zeros n = take n (
    0 ∷ 0 ∷ 0 ∷ 0 ∷ 0 ∷ 0 ∷ 0 ∷ 0 ∷ 0 ∷ 0 ∷ 0 ∷ 0 ∷ 0 ∷ 0 ∷ 0 ∷ 0 ∷ 0 ∷ 0 ∷ 0 ∷ 0 ∷ 0 ∷ 0 ∷ 0 ∷ 0
    ∷ 0 ∷ 0 ∷ 0 ∷ 0 ∷ 0 ∷ 0 ∷ 0 ∷ 0 ∷ [])

abbrev master : Bytes
master = 7 ∷ zeros 31

abbrev drawn : Drawn
drawn = record { data_key = 3 ∷ zeros 31; iv = zeros 12; wrap_iv = 1 ∷ zeros 11 }

decrypt-encrypt_example :
    decrypt toy master (encrypt toy master drawn (codes "s3cret")) ≡ inr (codes "s3cret")
decrypt-encrypt_example =
    decrypt-encrypt toy toy_IsCrypto master drawn (codes "s3cret") refl refl refl refl refl

decrypt-IsEnvelope_example :
    IsEnvelope toy toy_IsCrypto master (encrypt toy master drawn (codes "s3cret")) (codes "s3cret")
decrypt-IsEnvelope_example =
    decrypt-IsEnvelope toy toy_IsCrypto master (encrypt toy master drawn (codes "s3cret"))
      (codes "s3cret") decrypt-encrypt_example

wrong_master :
    decrypt toy (8 ∷ zeros 31) (encrypt toy master drawn (codes "s3cret"))
    ≡ inl "Stored secret could not be decrypted — ENCRYPTION_KEY may have changed"
unfolding decrypt decrypt_parts unwrap_data_key open_with encrypt wrap_data_key split join
wrong_master = refl

no_envelope :
    decrypt toy master (codes "v2.a.b.c.d.e")
    ≡ inl "Stored secret is not a recognised encryption envelope"
unfolding decrypt decrypt_parts split
no_envelope = refl

short_key : read_master_key toy (some (codes "abc")) ≡ none
unfolding read_master_key
short_key = refl

other_secret : secrets_match toy (codes "abc") (codes "abd") ≡ false
unfolding secrets_match
other_secret = refl
