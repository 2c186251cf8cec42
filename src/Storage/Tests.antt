-- ===== src/Storage/Tests.antt =====
-- A storage that is a function of the keys and refuses one of them, with a message that names it.
use iveri_nest_sdk.Common.{ℕ, ◌≡◌, refl, true, false, Option, none, some, [], ◌∷◌, if◌then◌else◌}
use iveri_nest_sdk.Common.Text.{Text, codes, text_eq}
use iveri_nest_sdk.Storage.{
  ObjectStorageModuleOptions, StoredObject, S3Command, put_object, delete_object, S3Client,
  s3_options, Sent, resolved, rejected, put, remove,
}

abbrev Storage : Type 0
Storage = Text → Option StoredObject

abbrev without : Text → Storage → Storage
without key s other = if text_eq key other then none else s other

-- A command at the key `busy` is rejected, a delete too late.
abbrev sent_to : Text → Sent
sent_to key = if text_eq key (codes "busy") then rejected key else resolved

abbrev send : S3Command → ℕ → Storage → Storage × Sent
send (put_object bucket dto sse) timeout s =
    (λ key. if text_eq dto.key key then some dto else s key, sent_to dto.key)
send (delete_object bucket key) timeout s = (without key s, sent_to key)

abbrev client : S3Client Storage
client = record { send = send }

abbrev options : ObjectStorageModuleOptions
options = record {
  bucket = codes "photos";
  endpoint = some (codes "http://minio:9000");
  region = none;
  access_key_id = some (codes "id");
  secret_access_key = some [];
  timeout_ms = 5000;
}

credentials_test : (s3_options options).credentials ≡ none
unfolding s3_options
credentials_test = refl

abbrev photo : StoredObject
photo = record {
  key = codes "p1";
  bytes = 1 ∷ [];
  content_type = codes "image/jpeg";
  cache_control = none;
}

abbrev full : Storage
full key = some photo

answers :
    ((remove client options (codes "p1") full).1 ≡ true)
    × ((remove client options (codes "busy") full).1 ≡ false)
unfolding remove
answers = (refl, refl)

-- The provider's message stays inside.
refused :
    (put client options (record photo { key = codes "busy" }) full).1
    ≡ some "Object storage is unavailable"
unfolding put
refused = refl
