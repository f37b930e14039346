-- ===== src/Accounts/Login.antt =====
-- Whoever the installer made an account for can log in.
use imagineos.Base.{
  ℕ, ◌<◌, ◌≡◌, refl, true, false, Option, none, some, List, [], ◌∷◌, ◌==◌, arith, same_bytes,
  Bool-cases, inl, inr,
}
use Prim.Native.Nat.{bit_xor}
use imagineos.Base.Lists.{length, take, All, length-take, take-append_length}
use imagineos.Base.Bits.{agree_up_to, agree_up_to-at}
use imagineos.Accounts.{
  InstallConfig, differences, verify_password, authenticate, make_database, root, is_bad_user,
  is_valid_install_config, is_bad_size, is_bad_hostname,
}
use imagineos.Accounts.Database.{
  IsConfig, stored, padded, valid-Accepted, decode_account-make_database,
}

xor_table : agree_up_to (λ b. bit_xor b b) (λ b. 0) 255 ≡ true
unfolding agree_up_to
xor_table = refl

differences-same : (xs : List ℕ) → All (λ b. b < 256) xs → differences 0 xs xs ≡ 0
unfolding differences
differences-same [] h = refl
differences-same (x ∷ xs) h =
    let e : bit_xor x x ≡ 0 =
      agree_up_to-at (λ b. bit_xor b b) (λ b. 0) 255 x (omega (arith, h.0)) xor_table in
    rw e (differences-same xs h.1)

same_bytes_refl : (xs : List ℕ) → same_bytes xs xs ≡ true
same_bytes_refl [] = refl
same_bytes_refl (x ∷ xs) = let e : (x == x) ≡ true = ground arith in rw e (same_bytes_refl xs)

made-valid :
    (c : InstallConfig) (salt hash bytes : List ℕ)
    → make_database c salt hash ≡ some bytes
    → (is_valid_install_config c ≡ true) × ((c.add_user == 0) ≡ false)
unfolding make_database
made-valid c salt hash bytes h = elim (Bool-cases (is_valid_install_config c)) [
  | inr t ↦ let e : none ≡ some bytes = rw t at h in cc
  | inl t ↦ elim (Bool-cases (c.add_user == 0)) [
    | inl u ↦ let e : none ≡ some bytes = rw (t, u) at h in cc
    | inr u ↦ (t, u)
  ]
]

valid-not_root :
    (c : InstallConfig)
    → is_valid_install_config c ≡ true
    → (c.add_user == 0) ≡ false
    → same_bytes (take c.username_length c.username) root ≡ false
unfolding is_valid_install_config is_bad_user
valid-not_root c h u = elim (Bool-cases (is_bad_size c)) [
  | inl t ↦ let e : false ≡ true = rw t at h in cc
  | inr t ↦ elim (Bool-cases (is_bad_hostname (take c.hostname_length c.hostname))) [
    | inl v ↦ let e : false ≡ true = rw (t, v) at h in cc
    | inr v ↦
        let bad : is_bad_user (take c.username_length c.username)
              (take c.password_length c.password)
            ≡ false =
          ground arith in
        ground arith
  ]
]

-- With the database that `make_database` wrote, the configured name and a password from which the
-- stored key of 32 bytes is derived log in as the configured account.
pub authenticate-make_database :
    (derive_key : List ℕ → List ℕ → Option (List ℕ)) (c : InstallConfig)
    (salt hash bytes password : List ℕ)
    → IsConfig c
    → length salt ≡ 16
    → length hash ≡ 32
    → All (λ b. b < 256) hash
    → derive_key password salt ≡ some hash
    → make_database c salt hash ≡ some bytes
    → authenticate derive_key (some bytes) (take c.username_length c.username) password
      ≡ some (stored c.username_length c.administrator salt hash (padded c))
unfolding authenticate verify_password
authenticate-make_database derive_key c salt hash bytes password v a b small k h =
    let (t, u) = made-valid c salt hash bytes h in
    let name : take c.username_length (padded c) ≡ take c.username_length c.username =
      take-append_length c.username_length (take c.username_length c.username) _ (
        omega
          (arith, length-take c.username_length c.username, (valid-Accepted c t u).name_fits)) in
    rw (valid-not_root c t u, decode_account-make_database c salt hash bytes v a b h)
      (rw
        (name, same_bytes_refl (take c.username_length c.username), k, differences-same hash small)
        refl)
