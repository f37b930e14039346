-- ===== src/Accounts.antt =====
-- kernel/src/accounts.rs: the installer's configuration, and the record of the one account in
-- /etc/users.db. The salt and the derived key are arguments: they come from the processor's random
-- numbers and from PBKDF2.
pub mod Database
pub mod Login
mod Tests
use imagineos.Base.{
  same_bytes, ℕ, ◌+◌, ◌-◌, Bool, true, false, ◌&&◌, ◌||◌, not, Option, none, some, List, [], ◌∷◌,
  ◌++◌, ltb, leb, ◌==◌, if◌then◌else◌,
}
use Prim.Native.Nat.{bit_or, bit_xor}
use imagineos.Base.Lists.{length, get_or, take, drop, replicate}
use imagineos.Base.Outcome.{from_le_bytes}

-- HOSTNAME_SIZE, ACCOUNT_NAME_SIZE and ACCOUNT_PASSWORD_SIZE of shared/abi.
abbrev pub hostname_size : ℕ
hostname_size = 64

abbrev pub account_name_size : ℕ
account_name_size = 32

abbrev pub account_password_size : ℕ
account_password_size = 64

-- The byte arrays have the sizes above; the first bytes of each are in use.
pub record InstallConfig : Type 0 where
  pub username_length : ℕ
  pub password_length : ℕ
  pub hostname_length : ℕ
  pub add_user : ℕ
  pub administrator : ℕ
  pub username : List ℕ
  pub password : List ℕ
  pub hostname : List ℕ

pub record Account : Type 0 where
  pub username : List ℕ
  pub username_length : ℕ
  pub uid : ℕ
  pub gid : ℕ
  pub administrator : Bool
  pub salt : List ℕ
  pub password_hash : List ℕ

abbrev pub all_bytes : (ℕ → Bool) → List ℕ → Bool
all_bytes p [] = true
all_bytes p (b ∷ bytes) = p b && all_bytes p bytes

abbrev pub any_byte : (ℕ → Bool) → List ℕ → Bool
any_byte p [] = false
any_byte p (b ∷ bytes) = p b || any_byte p bytes

abbrev pub is_empty : List ℕ → Bool
is_empty [] = true
is_empty (b ∷ bytes) = false

abbrev pub within : ℕ → ℕ → ℕ → Bool
within lo hi b = leb lo b && leb b hi

-- A letter, a digit, `-` or `.`.
abbrev pub is_hostname_byte : ℕ → Bool
is_hostname_byte b =
    within 65 90 b || (within 97 122 b || (within 48 57 b || ((b == 45) || (b == 46))))

-- A lower-case letter, a digit, `-` or `_`.
abbrev pub is_username_byte : ℕ → Bool
is_username_byte b = within 97 122 b || (within 48 57 b || ((b == 45) || (b == 95)))

-- "root"
abbrev pub root : List ℕ
root = 114 ∷ 111 ∷ 111 ∷ 116 ∷ []

pub is_bad_hostname : List ℕ → Bool
is_bad_hostname name =
    not (is_empty name)
    && (not (all_bytes is_hostname_byte name)
        || ((get_or name 0 0 == 45) || (get_or name 0 0 == 46)))

pub is_bad_user : List ℕ → List ℕ → Bool
is_bad_user username password =
    is_empty username
    || (same_bytes username root
        || (not (all_bytes is_username_byte username)
            || (is_empty password || any_byte (λ b. b == 0) password)))

pub is_bad_size : InstallConfig → Bool
is_bad_size c =
    ltb hostname_size c.hostname_length
    || (ltb account_name_size c.username_length
        || (ltb account_password_size c.password_length
            || (ltb 1 c.add_user || ltb 1 c.administrator)))

-- `validate_install_config(config).is_ok()`
pub is_valid_install_config : InstallConfig → Bool
is_valid_install_config c =
    if is_bad_size c
    then false
    else if is_bad_hostname (take c.hostname_length c.hostname)
    then false
    else if c.add_user == 0
    then (c.username_length == 0) && ((c.password_length == 0) && (c.administrator == 0))
    else not (is_bad_user (take c.username_length c.username) (take c.password_length c.password))

-- "IMUSER01"
abbrev pub database_magic : List ℕ
database_magic = 73 ∷ 77 ∷ 85 ∷ 83 ∷ 69 ∷ 82 ∷ 48 ∷ 49 ∷ []

-- The record of 100 bytes: the copies fill it from the front, and only the bytes 10 and 11 and those
-- behind the name stay zero. 1000 is 232 and 3, in little-endian order.
pub record_bytes : InstallConfig → List ℕ → List ℕ → List ℕ
record_bytes c salt hash =
    database_magic
    ++ (c.username_length
        ∷ c.administrator
        ∷ 0
        ∷ 0
        ∷ 232
        ∷ 3
        ∷ 0
        ∷ 0
        ∷ 232
        ∷ 3
        ∷ 0
        ∷ 0
        ∷ (salt
            ++ (hash
                ++ (take c.username_length c.username
                    ++ replicate (account_name_size - c.username_length) 0))))

pub make_database : InstallConfig → List ℕ → List ℕ → Option (List ℕ)
unfolding record_bytes
make_database c salt hash =
    if not (is_valid_install_config c)
    then none
    else if c.add_user == 0
    then none
    else some (record_bytes c salt hash)

-- "imagineos"
abbrev pub default_hostname : List ℕ
default_hostname = 105 ∷ 109 ∷ 97 ∷ 103 ∷ 105 ∷ 110 ∷ 101 ∷ 111 ∷ 115 ∷ []

pub hostname : InstallConfig → List ℕ
hostname c = if c.hostname_length == 0 then default_hostname else take c.hostname_length c.hostname

abbrev pub account_of : List ℕ → Account
account_of bytes = record {
  username = take 32 (drop 68 bytes);
  username_length = get_or bytes 8 0;
  uid = from_le_bytes (take 4 (drop 12 bytes));
  gid = from_le_bytes (take 4 (drop 16 bytes));
  administrator = not (get_or bytes 9 0 == 0);
  salt = take 16 (drop 20 bytes);
  password_hash = take 32 (drop 36 bytes);
}

pub decode_account : List ℕ → Option Account
decode_account bytes =
    let a : Account = account_of bytes in
    if not (length bytes == 100) || not (same_bytes (take 8 bytes) database_magic)
    then none
    else if (a.username_length == 0)
        || (ltb account_name_size a.username_length || ltb 1 (get_or bytes 9 0))
    then none
    else if ltb a.uid 1000 || ltb a.gid 1000
    then none
    else if any_byte (λ b. not (b == 0)) (drop a.username_length a.username)
    then none
    else some a

-- `Account::root`
pub root_account : Account
root_account = record {
  username = root ++ replicate 28 0;
  username_length = 4;
  uid = 0;
  gid = 0;
  administrator = true;
  salt = replicate 16 0;
  password_hash = replicate 32 0;
}

-- The fold of `constant_time_eq`, over the pairs of bytes.
pub differences : ℕ → List ℕ → List ℕ → ℕ
differences difference [] ys = difference
differences difference (x ∷ xs) [] = difference
differences difference (x ∷ xs) (y ∷ ys) = differences (bit_or difference (bit_xor x y)) xs ys

abbrev pub key_matches : Option (List ℕ) → List ℕ → Bool
key_matches none hash = false
key_matches (some candidate) hash = differences 0 candidate hash == 0

module _ (derive_key : List ℕ → List ℕ → Option (List ℕ)) where
  pub verify_password : Account → List ℕ → Bool
  verify_password a password =
      if a.uid == 0
      then same_bytes password root
      else key_matches (derive_key password a.salt) a.password_hash

  abbrev pub admit : List ℕ → List ℕ → Option Account → Option Account
  admit username password none = none
  admit username password (some a) =
      if same_bytes username (take a.username_length a.username) && verify_password a password
      then some a
      else none

  -- The contents of /etc/users.db are an argument.
  pub authenticate : Option (List ℕ) → List ℕ → List ℕ → Option Account
  authenticate database username password =
      if same_bytes username root
      then (if same_bytes password root then some root_account else none)
      else elim database [
        | none ↦ none
        | some bytes ↦ admit username password (decode_account bytes)
      ]
