-- ===== src/Accounts/Database.antt =====
-- The installer's record reads back as the account that was asked for.
use mathlib.Core.List.{append_assoc}
use mathlib.Core.Option.{some-injective}
use imagineos.Base.{
  ℕ, zero, suc, ◌-◌, ◌≤◌, ◌<◌, ◌≡◌, refl, sym, ap, ◌∙◌, Bool, true, false, ◌||◌, not, none, some,
  List, ◌∷◌, ◌++◌, ltb, ◌==◌, if◌then◌else◌, arith, Bool-cases, inl, inr,
}
use imagineos.Base.Lists.{
  length, take, drop, replicate, length-append, length-take, length-replicate, take-append_length,
  take_all, drop-append_length,
}
use imagineos.Accounts.{
  InstallConfig, Account, is_bad_size, is_bad_hostname, is_bad_user, is_valid_install_config,
  is_empty, any_byte, account_name_size, record_bytes, make_database, account_of, decode_account,
}

-- The array of the name has its size.
abbrev pub IsConfig : InstallConfig → Type 0
IsConfig c = length c.username ≡ account_name_size

no_bytes : (n : ℕ) → any_byte (λ b. not (b == 0)) (replicate n 0) ≡ false
no_bytes zero = refl
no_bytes (suc n) = no_bytes n

pub record Accepted (c : InstallConfig) : Type 0 where
  pub some_name : 0 < c.username_length
  pub name_fits : c.username_length ≤ account_name_size
  pub flag : c.administrator ≤ 1

is_empty-take : (n : ℕ) (xs : List ℕ) → is_empty (take n xs) ≡ false → 0 < n
is_empty-take zero xs h = cc
is_empty-take (suc n) xs h = omega arith

no_flag : (a b : Bool) → (if a then false else b) ≡ true → (a ≡ false) × (b ≡ true)
no_flag true b h = cc
no_flag false b h = (refl, h)

pub valid-Accepted :
    (c : InstallConfig) → is_valid_install_config c ≡ true → (c.add_user == 0) ≡ false → Accepted c
unfolding is_valid_install_config is_bad_size is_bad_user
valid-Accepted c h u =
    let (sizes, h1) = no_flag (is_bad_size c) _ h in
    let (_, h2) = no_flag (is_bad_hostname (take c.hostname_length c.hostname)) _ h1 in
    let bad : is_bad_user (take c.username_length c.username) (take c.password_length c.password)
        ≡ false =
      ground arith in
    record {
      some_name = is_empty-take c.username_length c.username (ground arith);
      name_fits = ground arith;
      flag = ground arith;
    }

-- The name with the zeros behind it.
abbrev pub padded : InstallConfig → List ℕ
padded c = take c.username_length c.username ++ replicate (account_name_size - c.username_length) 0

-- The record with its four parts named.
abbrev cells : ℕ → ℕ → List ℕ → List ℕ
cells ul adm rest =
    73 ∷ 77 ∷ 85 ∷ 83 ∷ 69 ∷ 82 ∷ 48 ∷ 49 ∷ ul ∷ adm ∷ 0 ∷ 0 ∷ 232 ∷ 3 ∷ 0 ∷ 0 ∷ 232 ∷ 3 ∷ 0 ∷ 0
    ∷ rest

abbrev pub stored : ℕ → ℕ → List ℕ → List ℕ → List ℕ → Account
stored ul adm salt hash name = record {
  username = name;
  username_length = ul;
  uid = 1000;
  gid = 1000;
  administrator = not (adm == 0);
  salt = salt;
  password_hash = hash;
}

-- The name behind the salt and the key.
name_at :
    (salt hash name : List ℕ)
    → length salt ≡ 16
    → length hash ≡ 32
    → length name ≡ 32
    → take 32 (drop 48 (salt ++ (hash ++ name))) ≡ name
name_at salt hash name a b c =
    ap (λ t. take 32 (drop 48 t)) (sym (append_assoc salt hash name))
    ∙ ap (λ t. take 32 t)
        (drop-append_length 48 (salt ++ hash) name (omega (arith, length-append salt hash)))
    ∙ take_all 32 name (omega arith)

account_of-cells :
    (ul adm : ℕ) (salt hash name : List ℕ)
    → length salt ≡ 16
    → length hash ≡ 32
    → length name ≡ 32
    → account_of (cells ul adm (salt ++ (hash ++ name))) ≡ stored ul adm salt hash name
account_of-cells ul adm salt hash name a b c =
    rw (at_salt, at_hash, name_at salt hash name a b c) refl
  where
    at_salt : take 16 (salt ++ (hash ++ name)) ≡ salt
    at_salt = take-append_length 16 salt (hash ++ name) a

    at_hash : take 32 (drop 16 (salt ++ (hash ++ name))) ≡ hash
    at_hash =
        ap (λ t. take 32 t) (drop-append_length 16 salt (hash ++ name) a)
        ∙ take-append_length 32 hash name b

length-cells :
    (ul adm : ℕ) (salt hash name : List ℕ)
    → length salt ≡ 16
    → length hash ≡ 32
    → length name ≡ 32
    → length (cells ul adm (salt ++ (hash ++ name))) ≡ 100
length-cells ul adm salt hash name a b c =
    omega (arith, length-append salt (hash ++ name), length-append hash name)

decode_account-cells :
    (ul adm : ℕ) (salt hash name : List ℕ)
    → length salt ≡ 16
    → length hash ≡ 32
    → length name ≡ 32
    → 0 < ul
    → ul ≤ account_name_size
    → adm ≤ 1
    → any_byte (λ b. not (b == 0)) (drop ul name) ≡ false
    → decode_account (cells ul adm (salt ++ (hash ++ name))) ≡ some (stored ul adm salt hash name)
unfolding decode_account
decode_account-cells ul adm salt hash name a b c lo hi f z =
    let t : ((ul == 0) || (ltb account_name_size ul || ltb 1 adm)) ≡ false = ground arith in
    rw (length-cells ul adm salt hash name a b c, account_of-cells ul adm salt hash name a b c)
      (rw (t, name_at salt hash name a b c, z) refl)

length-padded : (c : InstallConfig) → IsConfig c → Accepted c → length (padded c) ≡ 32
length-padded c v w = omega (
  arith,
  length-append (take c.username_length c.username)
      (replicate (account_name_size - c.username_length) 0),
  length-take c.username_length c.username,
  length-replicate {A = ℕ} (account_name_size - c.username_length) 0,
  w.name_fits,
)

-- What `make_database` writes for a configuration that it accepts, with a salt of 16 bytes and a
-- derived key of 32, `decode_account` reads as the account with that name, the ids 1000, the
-- administrator's flag, the salt and the key.
pub decode_account-make_database :
    (c : InstallConfig) (salt hash bytes : List ℕ)
    → IsConfig c
    → length salt ≡ 16
    → length hash ≡ 32
    → make_database c salt hash ≡ some bytes
    → decode_account bytes ≡ some (stored c.username_length c.administrator salt hash (padded c))
unfolding make_database record_bytes
decode_account-make_database c salt hash bytes v a b h =
    elim (Bool-cases (is_valid_install_config c)) [
      | inr t ↦ let e : none ≡ some bytes = rw t at h in cc
      | inl t ↦ elim (Bool-cases (c.add_user == 0)) [
        | inl u ↦ let e : none ≡ some bytes = rw (t, u) at h in cc
        | inr u ↦
            let w = valid-Accepted c t u in
            rw (← some-injective _ bytes (rw (t, u) at h)) (
              decode_account-cells c.username_length c.administrator salt hash (padded c) a b
                (length-padded c v w) w.some_name w.name_fits w.flag (clear c v w))
      ]
    ]
  where
    clear :
        (c : InstallConfig)
        → IsConfig c
        → Accepted c
        → any_byte (λ b. not (b == 0)) (drop c.username_length (padded c)) ≡ false
    clear c v w =
        ap (any_byte (λ b. not (b == 0))) (
          drop-append_length c.username_length (take c.username_length c.username) _
            (omega (arith, length-take c.username_length c.username, w.name_fits)))
        ∙ no_bytes (account_name_size - c.username_length)
