-- ===== src/Accounts/Tests.antt =====
-- The database of a fixed configuration.
use imagineos.Base.{[], ◌∷◌, ◌<◌, arith, ◌≡◌, refl, some, false}
use imagineos.Base.Lists.{replicate, All}
use imagineos.Accounts.{
  InstallConfig, is_valid_install_config, is_bad_size, is_bad_hostname, is_bad_user, make_database,
  record_bytes, decode_account, authenticate,
}
use imagineos.Accounts.Login.{authenticate-make_database}
use imagineos.Accounts.Database.{stored, padded, decode_account-make_database}

-- ana, with the password `x` and no hostname, as an administrator.
abbrev ana : InstallConfig
ana = record {
  username_length = 3;
  password_length = 1;
  hostname_length = 0;
  add_user = 1;
  administrator = 1;
  username = 97 ∷ 110 ∷ 97 ∷ replicate 29 0;
  password = 120 ∷ replicate 63 0;
  hostname = replicate 64 0;
}

-- The name `root` is refused.
root_refused :
    is_valid_install_config
      (record ana { username_length = 4; username = 114 ∷ 111 ∷ 111 ∷ 116 ∷ replicate 28 0 })
    ≡ false
unfolding is_valid_install_config is_bad_size is_bad_hostname is_bad_user
root_refused = refl

make_database_run :
    make_database ana (replicate 16 5) (replicate 32 6)
    ≡ some (record_bytes ana (replicate 16 5) (replicate 32 6))
unfolding make_database is_valid_install_config is_bad_size is_bad_hostname is_bad_user
make_database_run = refl

decode_account-make_database_example :
    decode_account (record_bytes ana (replicate 16 5) (replicate 32 6))
    ≡ some (stored 3 1 (replicate 16 5) (replicate 32 6) (padded ana))
decode_account-make_database_example =
    decode_account-make_database ana (replicate 16 5) (replicate 32 6)
      (record_bytes ana (replicate 16 5) (replicate 32 6)) refl refl refl make_database_run

small : All (λ b. b < 256) (replicate 32 6)
small = (
  omega arith,
  (
    omega arith,
    (
      omega arith,
      (
        omega arith,
        (
          omega arith,
          (
            omega arith,
            (
              omega arith,
              (
                omega arith,
                (
                  omega arith,
                  (
                    omega arith,
                    (
                      omega arith,
                      (
                        omega arith,
                        (
                          omega arith,
                          (
                            omega arith,
                            (
                              omega arith,
                              (
                                omega arith,
                                (
                                  omega arith,
                                  (
                                    omega arith,
                                    (
                                      omega arith,
                                      (
                                        omega arith,
                                        (
                                          omega arith,
                                          (
                                            omega arith,
                                            (
                                              omega arith,
                                              (
                                                omega arith,
                                                (
                                                  omega arith,
                                                  (
                                                    omega arith,
                                                    (
                                                      omega arith,
                                                      (
                                                        omega arith,
                                                        (
                                                          omega arith,
                                                          (
                                                            omega arith,
                                                            (omega arith, (omega arith, tt)),
                                                          ),
                                                        ),
                                                      ),
                                                    ),
                                                  ),
                                                ),
                                              ),
                                            ),
                                          ),
                                        ),
                                      ),
                                    ),
                                  ),
                                ),
                              ),
                            ),
                          ),
                        ),
                      ),
                    ),
                  ),
                ),
              ),
            ),
          ),
        ),
      ),
    ),
  ),
)

authenticate-make_database_example :
    authenticate
      (λ password salt. some (replicate 32 6))
      (some (record_bytes ana (replicate 16 5) (replicate 32 6)))
      (97 ∷ 110 ∷ 97 ∷ [])
      (120 ∷ [])
    ≡ some (stored 3 1 (replicate 16 5) (replicate 32 6) (padded ana))
authenticate-make_database_example =
    authenticate-make_database (λ password salt. some (replicate 32 6)) ana (replicate 16 5)
      (replicate 32 6) (record_bytes ana (replicate 16 5) (replicate 32 6)) (120 ∷ []) refl refl
      refl small refl make_database_run
