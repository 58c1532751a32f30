-- ===== src/Bootstrap/Configured.antt =====
-- internal/bootstrap: the configuration that a run writes.
use ksuite_mail.Common.{
  ◌≡◌, refl, ap, sym, ◌∙◌, subst, inl, inr, Bool, true, false, Bool-cases, some, List, [], ◌∷◌,
  ◌++◌, ok, ok_injective, Text, same, same_refl, arith, any,
}
use ksuite_mail.Mail.{Account, Config}
use ksuite_mail.Settings.{
  Problem, validate, account_problems, parse_ttl, atoi, unit_of, unsnoc, to_int64, digits_from,
  unsigned,
}
use ksuite_mail.Strings.{trim_space, trim_left, trim_right, is_space}
use ksuite_mail.Layout.{config_file}
use ksuite_mail.Bootstrap.Host.{Outside}
use ksuite_mail.Bootstrap.Files.{starter}
use ksuite_mail.Bootstrap.Accounts.{add_account, checked_config, has_account}
use ksuite_mail.Bootstrap.Views.{View, written}
use ksuite_mail.Bootstrap.Bound.{
  IsCodec, Stores, AllStored, IsBound, IsLoadedConfig, decoded_config_ok,
}

pub validate-starter : validate starter ≡ []
unfolding validate account_problems parse_ttl atoi unit_of unsnoc to_int64 digits_from unsigned
    trim_space trim_left trim_right is_space
validate-starter = refl

checked_config_ok :
    (c cfg : Config) (l : List Problem)
    → checked_config c l ≡ ok cfg
    → validate c ≡ l
    → (c ≡ cfg) × (validate cfg ≡ [])
checked_config_ok c cfg [] h q = (ok_injective h, ap validate (sym (ok_injective h)) ∙ q)
checked_config_ok c cfg (x ∷ xs) h q = cc

has_account_snoc :
    (accounts : List Account) (acct : Account)
    → any (λ (a : Account). same a.id acct.id) (accounts ++ (acct ∷ [])) ≡ true
has_account_snoc [] acct = rw (same_refl acct.id) refl
has_account_snoc (a ∷ accounts) acct = ground (arith, has_account_snoc accounts acct)

module _ (o : Outside) where
  AllStored-snoc :
      (v : View) (accounts : List Account) (acct : Account) (secret : Text)
      → AllStored o v accounts
      → Stores o v acct.password_ref.id secret
      → AllStored o v (accounts ++ (acct ∷ []))
  AllStored-snoc v [] acct secret h s = ((secret, s), tt)
  AllStored-snoc v (a ∷ accounts) acct secret (ha, h) s =
      (ha, AllStored-snoc v accounts acct secret h s)

  -- A configuration that may be written.
  abbrev pub IsReady : View → Config → Type 0
  IsReady v cfg = (validate cfg ≡ []) × AllStored o v cfg.accounts

  pub loaded-IsReady :
      (v : View) (p : Config × Bool) → IsBound o v → IsLoadedConfig o p v → IsReady v p.0
  loaded-IsReady v (cfg, true) b (t, e, q) =
      b.bound t cfg e (decoded_config_ok (o.decode_config t) cfg q).0
  loaded-IsReady v (cfg, false) b (e, q) = subst (IsReady v) (sym q) (validate-starter, tt)

  pub add_account-IsReady :
      (v : View) (acct : Account) (cfg cfg' : Config) (secret : Text)
      → IsReady v cfg
      → Stores o v acct.password_ref.id secret
      → add_account acct cfg ≡ ok cfg'
      → IsReady v cfg' × (has_account cfg' acct.id ≡ true)
  unfolding add_account
  add_account-IsReady v acct cfg cfg' secret (valid, all_stored) st h =
      elim (Bool-cases (has_account cfg acct.id)) [
        | inl has ↦
            let q = ok_injective (rw has at h) in
            (subst (IsReady v) q (valid, all_stored), ap (λ c. has_account c acct.id) (sym q) ∙ has)
        | inr new ↦
            let added : Config = record cfg { accounts = cfg.accounts ++ (acct ∷ []) } in
            let (q, valid') = checked_config_ok added cfg' (validate added) (rw new at h) refl in
            (
              (
                valid',
                subst (λ c. AllStored o v c.accounts) q
                    (AllStored-snoc v cfg.accounts acct secret all_stored st),
              ),
              ap (λ c. has_account c acct.id) (sym q) ∙ has_account_snoc cfg.accounts acct,
            )
      ]

  -- The configuration file has an account of the id.
  abbrev pub Configures : Text → View → Type 0
  Configures id v =
      (t : Text) × (cfg : Config) × (v config_file ≡ some t)
      × (o.decode_config t ≡ some cfg)
      × (has_account cfg id ≡ true)

  module _ (codec : IsCodec o) (cfg : Config) (text : Text)
      (e : o.encode_config cfg ≡ some text) where
    abbrev pub after_write : View → View
    after_write v = written config_file text v

    pub write-Stores :
        (v : View) (id secret : Text) → Stores o v id secret → Stores o (after_write v) id secret
    unfolding same
    write-Stores v id secret s = s

    stored_after :
        (v : View) (accounts : List Account)
        → AllStored o v accounts
        → AllStored o (after_write v) accounts
    stored_after v [] h = tt
    stored_after v (a ∷ accounts) ((secret, s), h) =
        ((secret, write-Stores v a.password_ref.id secret s), stored_after v accounts h)

    read_after : (v : View) (t : Text) → after_write v config_file ≡ some t → text ≡ t
    unfolding same
    read_after v t h = cc

    pub write-IsBound : (v : View) → IsReady v cfg → IsBound o (after_write v)
    write-IsBound v (valid, all_stored) = record {
      bound = λ t c r d.
          let q = same_config t c (read_after v t r) d in
          (
            ap validate (sym q) ∙ valid,
            subst (λ (x : Config). AllStored o (after_write v) x.accounts) q
                (stored_after v cfg.accounts all_stored),
          );
    }
      where
        same_config : (t : Text) (c : Config) → text ≡ t → o.decode_config t ≡ some c → cfg ≡ c
        same_config t c r d = let back = codec.config cfg text e in cc

    pub write-Configures :
        (v : View) (id : Text) → has_account cfg id ≡ true → Configures id (after_write v)
    write-Configures v id h =
        (text, cfg, rw (same_refl config_file) refl, codec.config cfg text e, h)
