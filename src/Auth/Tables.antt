-- ===== src/Auth/Tables.antt =====
-- The tables of internal/app/auth/auth.go, and what its calls take from outside: the clock, how
-- the email column compares (citext), the clean texts of platform/sanitize, the password functions over argon2, the hash of a refresh token, the signature of an access token, and
-- the identifiers and random bytes that a call draws. Times are nanoseconds.
use Prim.Native.String.{String}
use evermore.Base.{ℕ, ◌*◌, Bool, List, Option}
use evermore.Int64.{ℤ}

pub record User : Type 0 where
  pub id : ℕ
  pub email : String
  pub password_hash : String
  pub phone : String
  pub is_active : Bool
  pub failed_login_count : ℤ
  pub locked_until : Option ℕ
  pub last_login_at : Option ℕ

pub data RevokedReason : Type 0 where
  rotated reuse_detected logged_out logged_out_all : RevokedReason

pub record RefreshToken : Type 0 where
  pub id : ℕ
  pub user_id : ℕ
  pub token_hash : String
  pub issued_at : ℕ
  pub expires_at : ℕ
  pub revoked_at : Option ℕ
  pub revoked_reason : Option RevokedReason
  pub user_agent : List ℕ
  pub ip_address : Option String

pub record Role : Type 0 where
  pub id : ℕ
  pub slug : String
  pub is_staff : Bool

-- A user's role, and a role's permission.
pub record UserRole : Type 0 where
  pub user_id : ℕ
  pub role_id : ℕ

pub record RolePermission : Type 0 where
  pub role_id : ℕ
  pub permission_id : ℕ

pub record Permission : Type 0 where
  pub id : ℕ
  pub code : String

pub record CustomerType : Type 0 where
  pub id : ℕ
  pub slug : String
  pub is_active : Bool

pub record Customer : Type 0 where
  pub id : ℕ
  pub user_id : ℕ
  pub customer_type_id : ℕ
  pub full_name : String
  pub allergen_profile : List String

pub record StaffProfile : Type 0 where
  pub user_id : ℕ
  pub kitchen_id : Option ℕ

-- What a customer's address keeps of the form, beside its columns that are stored as they come.
pub record AddressRow {ℓ} (Form : Type ℓ) : Type ℓ where
  pub id : ℕ
  pub customer_id : ℕ
  pub form : Form
  pub is_default : Bool
  pub is_active : Bool

pub record Db {ℓ} (Form : Type ℓ) : Type ℓ where
  pub users : List User
  pub tokens : List RefreshToken
  pub roles : List Role
  pub user_roles : List UserRole
  pub role_permissions : List RolePermission
  pub permissions : List Permission
  pub customer_types : List CustomerType
  pub customers : List Customer
  pub staff : List StaffProfile
  pub addresses : List (AddressRow Form)
  pub allergens : List String

pub data AuthError : Type 0 where
  invalid_credentials account_locked account_inactive email_taken : AuthError
  no_rows hash_malformed signing_failed random_failed : AuthError
  invalid_email invalid_name invalid_phone : AuthError
  password_too_short password_too_long password_too_common hashing_failed : AuthError
  retail_missing customer_role_missing : AuthError
  unknown_allergen : String → AuthError

-- `Principal`; its set of permissions is a list.
pub record Principal : Type 0 where
  pub user_id : ℕ
  pub email : String
  pub roles : List String
  pub permissions : List String
  pub customer_id : Option ℕ
  pub kitchen_id : Option ℕ
  pub is_staff : Bool

-- `Tokens`, whose type is always Bearer.
pub record Tokens : Type 0 where
  pub access_token : String
  pub refresh_token : String
  pub expires_at : ℕ

-- The service, its parts that are not of this package, and what one call draws.
pub record Env : Type 0 where
  pub refresh_ttl : ℕ
  pub same_email : String → String → Bool
  pub clean_email : String → Option String
  pub clean_name : String → Option String
  pub clean_phone : String → Option String
  pub verify_password : String → String → Option Bool
  pub hash_password : String → Option String
  pub needs_rehash : String → Bool
  pub hash_token : String → String
  pub sign : Principal → ℕ → Option String
  pub runes : String → List ℕ
  pub to_lower : List ℕ → List ℕ
  pub now : ℕ
  pub new_id : ℕ
  pub new_customer_id : ℕ
  pub new_address_id : ℕ
  pub new_token : Option String

abbrev pub minute : ℕ
minute = 60 * 1000000000
