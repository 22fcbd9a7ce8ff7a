-- ===== src/Db/Organizations.antt =====
-- db/schema.ts: the rows of the tables on organizations, their members, collections and groups.
use vaultur.Prelude.{ℕ, String, Bool, Option}
use vaultur.Prelude.Int.{ℤ}

pub record Membership : Type 0 where
  pub uuid : String
  pub user_uuid : String
  pub org_uuid : String
  pub access_all : Bool
  pub akey : String
  pub status : ℤ
  pub atype : ℕ
  pub invited_by_email : Option String
  pub reset_password_key : Option String
  pub external_id : Option String

pub record Organization : Type 0 where
  pub uuid : String
  pub name : String
  pub billing_email : String
  pub private_key : Option String
  pub public_key : Option String

pub record Group : Type 0 where
  pub uuid : String
  pub organizations_uuid : String
  pub name : String
  pub access_all : Bool
  pub external_id : Option String
  pub creation_date : ℕ
  pub revision_date : ℕ

pub record Collection : Type 0 where
  pub uuid : String
  pub org_uuid : String
  pub name : String
  pub external_id : Option String

pub record CipherCollection : Type 0 where
  pub cipher_uuid : String
  pub collection_uuid : String

pub record UserCollection : Type 0 where
  pub user_uuid : String
  pub collection_uuid : String
  pub read_only : Bool
  pub hide_passwords : Bool
  pub manage : Bool

pub record CollectionGroup : Type 0 where
  pub collections_uuid : String
  pub groups_uuid : String
  pub read_only : Bool
  pub hide_passwords : Bool
  pub manage : Bool

pub record GroupUser : Type 0 where
  pub groups_uuid : String
  pub users_organizations_uuid : String

pub record OrgPolicy : Type 0 where
  pub uuid : String
  pub org_uuid : String
  pub atype : ℕ
  pub enabled : Bool
  pub policy_data : String
