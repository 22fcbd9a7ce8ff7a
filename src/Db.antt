-- ===== src/Db.antt =====
-- The state that the handlers share: the D1 tables (db/schema.ts), the blob store
-- (services/storage.ts) and what was handed to `waitUntil` for sending, newest first.
pub mod Accounts
pub mod Vault
pub mod Organizations
pub mod Keys
use vaultur.Prelude.{ℕ, String, Option, List, []}
pub use Accounts.{
  User, Device, TwoFactor, TwoFactorIncomplete, DuoContext, SsoAuth, AuthRequest, EmergencyAccess,
}
pub use Vault.{
  Cipher, Folder, FolderCipher, Favorite, Archive, Attachment, Send, SendContent, TextData,
}
pub use Organizations.{
  Organization, Membership, Group, Collection, CipherCollection, UserCollection, CollectionGroup,
  GroupUser, OrgPolicy,
}

-- A mail with its template, recipient and token; a live-sync notice with its type and its user; and
-- one on the anonymous hub of an auth request.
pub data Effect : Type 0 where
  mail : String → String → Option String → Effect
  notice : ℕ → String → Effect
  anonymous_notice : ℕ → String → Effect

pub record EventRow : Type 0 where
  pub uuid : String
  pub event_type : ℕ
  pub user_uuid : Option String
  pub org_uuid : Option String
  pub cipher_uuid : Option String
  pub collection_uuid : Option String
  pub group_uuid : Option String
  pub org_user_uuid : Option String
  pub act_user_uuid : Option String
  pub policy_uuid : Option String
  pub device_type : Option ℕ
  pub ip_address : String
  pub event_date : ℕ

pub record Blob : Type 0 where
  pub key : String
  pub size : ℕ

pub record Db : Type 0 where
  pub users : List User
  pub devices : List Device
  pub twofactor : List TwoFactor
  pub twofactor_incomplete : List TwoFactorIncomplete
  pub twofactor_duo_ctx : List DuoContext
  pub sso_auth : List SsoAuth
  pub auth_requests : List AuthRequest
  pub emergency_access : List EmergencyAccess
  pub ciphers : List Cipher
  pub folders : List Folder
  pub folders_ciphers : List FolderCipher
  pub favorites : List Favorite
  pub archives : List Archive
  pub attachments : List Attachment
  pub sends : List Send
  pub invitations : List String
  pub organizations : List Organization
  pub users_organizations : List Membership
  pub collections : List Collection
  pub ciphers_collections : List CipherCollection
  pub users_collections : List UserCollection
  pub collections_groups : List CollectionGroup
  pub groups : List Group
  pub groups_users : List GroupUser
  pub org_policies : List OrgPolicy
  pub event : List EventRow
  pub blobs : List Blob
  pub outbox : List Effect

abbrev pub empty_db : Db
empty_db = record {
  users = [];
  devices = [];
  twofactor = [];
  twofactor_incomplete = [];
  twofactor_duo_ctx = [];
  sso_auth = [];
  auth_requests = [];
  emergency_access = [];
  ciphers = [];
  folders = [];
  folders_ciphers = [];
  favorites = [];
  archives = [];
  attachments = [];
  sends = [];
  invitations = [];
  organizations = [];
  users_organizations = [];
  collections = [];
  ciphers_collections = [];
  users_collections = [];
  collections_groups = [];
  groups = [];
  groups_users = [];
  org_policies = [];
  event = [];
  blobs = [];
  outbox = [];
}
