-- ===== src/Db/Vault.antt =====
-- db/schema.ts: the rows of the tables on vault items and Sends.
use vaultur.Prelude.{ℕ, String, Bool, Option}

pub record Cipher : Type 0 where
  pub uuid : String
  pub updated_at : ℕ
  pub user_uuid : Option String
  pub organization_uuid : Option String
  pub atype : ℕ
  pub name : String
  pub deleted_at : Option ℕ

pub record Folder : Type 0 where
  pub uuid : String
  pub user_uuid : String
  pub name : String

pub record FolderCipher : Type 0 where
  pub cipher_uuid : String
  pub folder_uuid : String

pub record Favorite : Type 0 where
  pub user_uuid : String
  pub cipher_uuid : String

pub record Archive : Type 0 where
  pub user_uuid : String
  pub cipher_uuid : String
  pub archived_at : ℕ

pub record Attachment : Type 0 where
  pub id : String
  pub cipher_uuid : String
  pub file_name : String
  pub file_size : ℕ

-- The object `text` of a payload, which is stored as it comes: beside the text it may have the fields
-- `id` and `size` that the handler of uploads looks for.
pub record TextData : Type 0 where
  pub shown : String
  pub id : Option String
  pub size : ℕ

-- What `JSON.parse` makes of the `data` column of a Send: the object of a text Send, or the record of
-- a file Send's upload.
pub data SendContent : Type 0 where
  empty : SendContent
  text : TextData → SendContent
  file : String → String → ℕ → SendContent

pub record Send : Type 0 where
  pub uuid : String
  pub user_uuid : Option String
  pub name : String
  pub notes : Option String
  pub atype : ℕ
  pub content : SendContent
  pub akey : String
  pub password_hash : Option String
  pub password_salt : Option String
  pub password_iter : Option ℕ
  pub max_access_count : Option ℕ
  pub access_count : ℕ
  pub creation_date : ℕ
  pub revision_date : ℕ
  pub expiration_date : Option ℕ
  pub deletion_date : ℕ
  pub disabled : Bool
  pub hide_email : Option Bool
