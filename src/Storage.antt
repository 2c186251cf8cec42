-- ===== src/Storage.antt =====
-- src/storage/object-storage.service.ts: the objects of one service's bucket.
--
-- The S3 client is a parameter: what a command does to the state of the storage, and whether the
-- call is rejected, by a timeout or otherwise. A rejected command may have taken effect.
mod Tests
use Prim.Native.String.{String}
use iveri_nest_sdk.Common.{
  ℕ, ◌≡◌, Bool, true, false, ◌&&◌, Option, none, some, List, [], ◌∷◌, ◌⊎◌, inl, inr, if◌then◌else◌,
}
use iveri_nest_sdk.Common.Text.{Text, codes}

pub record ObjectStorageModuleOptions : Type 0 where
  pub bucket : Text
  pub endpoint : Option Text
  pub region : Option Text
  pub access_key_id : Option Text
  pub secret_access_key : Option Text
  pub timeout_ms : ℕ

pub record S3Options : Type 0 where
  pub region : Text
  pub endpoint : Option Text
  pub force_path_style : Bool
  pub credentials : Option (Text × Text)

-- `Boolean(text)`
abbrev is_truthy : Option Text → Bool
is_truthy none = false
is_truthy (some []) = false
is_truthy (some (c ∷ s)) = true

abbrev pub both : Option Text → Option Text → Option (Text × Text)
both (some a) (some b) = if is_truthy (some a) && is_truthy (some b) then some (a, b) else none
both _ _ = none

-- What the constructor gives the client.
unfoldable pub s3_options : ObjectStorageModuleOptions → S3Options
s3_options options = record {
  region = elim options.region [ none ↦ codes "us-east-1" | some region ↦ region ];
  endpoint = options.endpoint;
  force_path_style = is_truthy options.endpoint;
  credentials = both options.access_key_id options.secret_access_key;
}

pub record StoredObject : Type 0 where
  pub key : Text
  pub bytes : List ℕ
  pub content_type : Text
  pub cache_control : Option Text

pub data S3Command : Type 0 where
  put_object : (bucket : Text) → StoredObject → (server_side_encryption : String) → S3Command
  delete_object : (bucket key : Text) → S3Command

-- How the promise of a command ends; a rejection carries the provider's message.
pub data Sent : Type 0 where
  resolved : Sent
  rejected : (message : Text) → Sent

-- A command with the time that it is given: the storage after it, and how its promise ends.
pub record S3Client (Storage : Type 0) : Type 0 where
  pub send : S3Command → (timeout_ms : ℕ) → Storage → Storage × Sent

module _ {Storage : Type 0} (client : S3Client Storage) (options : ObjectStorageModuleOptions) where
  -- The storage, and the message of what is thrown.
  unfoldable pub put : StoredObject → Storage → Storage × Option String
  put dto s =
      let (s', sent) = client.send (put_object options.bucket dto "AES256") options.timeout_ms s in
      (s', elim sent [ resolved ↦ none | rejected message ↦ some "Object storage is unavailable" ])

  -- The storage, and what is returned: `false` where the `catch` has the rejection.
  unfoldable pub remove : Text → Storage → Storage × Bool
  remove key s =
      let (s', sent) = client.send (delete_object options.bucket key) options.timeout_ms s in
      (s', elim sent [ resolved ↦ true | rejected message ↦ false ])
